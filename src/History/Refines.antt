-- ===== src/History/Refines.antt =====
-- Every sequence of requests and passes against the partial map of the parameters.
use cinder_userspace.Base.{
  ℕ, ◌≡◌, refl, ap, ◌∙◌, true, false, List, none, some, subst, ◌==◌, if◌then◌else◌,
}
use cinder_userspace.Base.Int.{ℤ, is_pos}
use cinder_userspace.Os.{null, Trace, Env}
use cinder_userspace.Store.{World, Run, ok, Returns}
use cinder_userspace.Context.{PaContext}
use cinder_userspace.Dbase.View.{entry, params_of}
use cinder_userspace.Controller.Safe.{Safe}
use cinder_userspace.History.{
  Request, stat, get, remove, set, add, pass, run_request, History, begin, then_request, Params,
  concerns, replaced, applied, replayed,
}
use cinder_userspace.History.Effect.{Effect, run_request-Effect}

-- A request looks at the map at `k` alone.
applied_at :
    (r : Request) (err : ℤ) (m n : Params) (k : ℕ)
    → m k ≡ n k
    → applied r err m k ≡ applied r err n k
applied_at (stat uid task remote) err m n k e = e
applied_at (get uid task remote) err m n k e = e
applied_at (remove uid task remote) err m n k e = ap (λ x. if concerns uid err k then none else x) e
applied_at (set uid task remote tap_type tap_value) err m n k e =
    ap (λ x. if concerns uid err k then replaced (tap_type, tap_value) x else x) e
applied_at (add uid task remote tap_type tap_value) err m n k e =
    ap (λ x. if concerns uid err k then some (tap_type, tap_value) else x) e
applied_at pass err m n k e = e

Returns-ok :
    {H L A : Type 0} (P : A → World H L → Type 0) (m : Run H L A) (a : A) (w : World H L)
    → Returns P m
    → m ≡ ok a w
    → P a w
Returns-ok P m a w h e = subst (Returns P) e h

module _ {H L : Type 0} (env : Env H L)
    (used : (t : Trace) (id : ℤ) → is_pos (env.num_users t id) ≡ true) (c : PaContext)
    (db : (c.dbase == null) ≡ false) (start : World H L) (s : Safe env start) where
  step-Effect :
      (r : Request) (err : ℤ) (w w' : World H L)
      → Safe env w
      → run_request env c r w ≡ ok err w'
      → Effect env r w err w'
  step-Effect r err w w' safe ran =
      Returns-ok (Effect env r w) (run_request env c r w) err w'
        (run_request-Effect env used c w db safe r) ran

  pub history-Safe :
      {past : List (Request × ℤ)} {w : World H L} → History env c start past w → Safe env w
  history-Safe begin = s
  history-Safe (then_request {w = w} before r err w' ran) =
      (step-Effect r err w w' (history-Safe before) ran).safe

  pub history-Effect :
      {past : List (Request × ℤ)} {w : World H L} (r : Request) (err : ℤ) (w' : World H L)
      → History env c start past w
      → run_request env c r w ≡ ok err w'
      → Effect env r w err w'
  history-Effect {w = w} r err w' before ran = step-Effect r err w w' (history-Safe before) ran

  history-params :
      {past : List (Request × ℤ)} {w : World H L}
      → History env c start past w
      → (k : ℕ) → params_of (entry env w k) ≡ replayed past (λ j. params_of (entry env start j)) k
  unfolding replayed
  history-params begin k = refl
  history-params (then_request {w = w} before r err w' ran) k =
      (history-Effect r err w' before ran).params k
      ∙ applied_at r err (λ j. params_of (entry env w j)) _ k (history-params before k)

  -- After any sequence of the five requests, of any processes for any uids, and of passes of the
  -- reaper, in any order: from a database that satisfies its invariant and in which no lock is
  -- held, where a reserve that the kernel knows has a user, the parameters are those of the map
  -- that the successful requests make, the state is such a state again, and the next request or
  -- pass ends with no fault.
  pub history_refines :
      {past : List (Request × ℤ)} {w : World H L}
      → History env c start past w
      → Safe env w
        × ((k : ℕ)
            → params_of (entry env w k) ≡ replayed past (λ j. params_of (entry env start j)) k)
        × ((r : Request) → Returns (Effect env r w) (run_request env c r w))
  history_refines {w = w} h =
      (history-Safe h, history-params h, run_request-Effect env used c w db (history-Safe h))
