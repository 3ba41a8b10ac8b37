-- ===== src/History/Grants.antt =====
-- The reserve of a uid over a sequence of requests and passes.
use mathlib.Core.Option.{some-injective}
use cinder_userspace.Base.{
  ℕ, ◌≡◌, refl, ap, ◌∙◌, true, false, List, Option, none, some, arith, ◌==◌, Bool-cases, inl, inr,
}
use cinder_userspace.Base.Int.{ℤ, is_zero, is_pos}
use cinder_userspace.Os.{null, Trace, Env}
use cinder_userspace.Store.{UidReserveData, World, Returns, Returns-mono}
use cinder_userspace.Record.{local}
use cinder_userspace.Context.{PaContext, pa_reserve_granted}
use cinder_userspace.Dbase.View.{entry}
use cinder_userspace.Dbase.Invariant.{is_some}
use cinder_userspace.Controller.{stat_reserve}
use cinder_userspace.Controller.Stat.{Answer, stat_reserve-Answer, created, reserve_of}
use cinder_userspace.Controller.Safe.{Safe}
use cinder_userspace.History.{Request, History, begin, then_request, removes, was_removed}
use cinder_userspace.History.Effect.{grant, has_grant}
use cinder_userspace.History.Refines.{history-Safe, history-Effect}

has_grant_of : (e : Option UidReserveData) (id : ℤ) → grant e ≡ some id → has_grant e ≡ true
has_grant_of none id h = cc
has_grant_of (some d) id h = ground (arith, h)

module _ {H L : Type 0} (env : Env H L)
    (used : (t : Trace) (id : ℤ) → is_pos (env.num_users t id) ≡ true) (c : PaContext)
    (db : (c.dbase == null) ≡ false) (start : World H L) (s : Safe env start) (k : ℕ) (id : ℤ)
    (granted : grant (entry env start k) ≡ some id) where
  grant_kept :
      {past : List (Request × ℤ)} {w : World H L}
      → History env c start past w
      → was_removed past k ≡ false
      → grant (entry env w k) ≡ some id
  unfolding was_removed
  grant_kept begin h = granted
  grant_kept (then_request {past = past} {w = w} before r err w' ran) h =
      elim (Bool-cases (removes r err k)) [
        | inl e ↦ absurd (ground (arith, e, h))
        | inr e ↦
            let held = grant_kept before (rw e at h) in
            (history-Effect env used c db start s r err w' before ran).kept k
              (has_grant_of _ id held) e
            ∙ held
      ]

  answered :
      (e e' : Option UidReserveData) (a : Option (ℤ × ℕ))
      → grant e ≡ some id
      → e' ≡ e
      → a ≡ reserve_of e'
      → a ≡ some (id, pa_reserve_granted)
  answered none e' a g same r = cc
  answered (some d) e' a g same r = elim (Bool-cases d.reserve_created) [
    | inl e ↦
        r
        ∙ (ap reserve_of same
            ∙ ap (λ i. some (i, pa_reserve_granted)) (some-injective d.reserve_id id (rw e at g)))
    | inr e ↦ absurd (let no : none ≡ some id = rw e at g in cc)
  ]

  present : (e : Option UidReserveData) → grant e ≡ some id → is_some e ≡ true
  present none h = cc
  present (some d) h = refl

  created_of : (e : Option UidReserveData) → grant e ≡ some id → created e ≡ true
  created_of none h = cc
  created_of (some d) h = ground (arith, h)

  -- Where the entry of a uid holds a reserve, from a database that satisfies its invariant and in
  -- which no lock is held, and a reserve that the kernel knows has a user: after any sequence of
  -- requests and passes of the reaper in which the uid was not removed, statReserve for that uid,
  -- by any process, grants that same reserve where it returns 0.
  pub grants_stay :
      {past : List (Request × ℤ)} {w : World H L} (task : ℤ) (remote : ℕ)
      → History env c start past w
      → was_removed past k ≡ false
      → Returns
          (λ a w'. is_zero (a.0) ≡ true → a.1 ≡ some (id, pa_reserve_granted))
          (stat_reserve env (some c) k task remote local local w)
  grants_stay {w = w} task remote h out =
      let held = grant_kept h out in
      Returns-mono (Answer env c k task remote w db (history-Safe env used c db start s h).inv) _ _
        (stat_reserve-Answer env c k task remote w db (history-Safe env used c db start s h).inv
          local local refl refl)
        (λ a w' d z.
          answered (entry env w k) (entry env w' k) (a.1) held (d.kept (created_of _ held))
            (d.granted (present _ held) z).0)
