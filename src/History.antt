-- ===== src/History.antt =====
-- Sequences of the requests of CinderUserspace/PowerArbiter/controller.c and of the reaper's passes,
-- in any order. Each works on the database between the lock of `dbase_lock` and its unlock, so that
-- one follows the other.
pub mod Effect
pub mod Refines
pub mod Grants
use cinder_userspace.Base.{
  ℕ, ◌≡◌, ◌&&◌, Bool, true, false, List, [], ◌∷◌, Option, none, some, ◌==◌, if◌then◌else◌,
}
use cinder_userspace.Base.Int.{ℤ, is_zero}
use cinder_userspace.Os.{Env}
use cinder_userspace.Store.{World, ok, Cmd, pure, ◌>>=◌}
use cinder_userspace.Record.{local}
use cinder_userspace.Context.{PaContext}
use cinder_userspace.Dbase.{clear_unused}
use cinder_userspace.Controller.{
  stat_reserve, get_tap_params, set_tap_params, add_reserve_params_for_uid,
  remove_reserve_params_for_uid,
}

-- A request of the process `task` of the user `remote` for a uid, or a pass of the reaper.
pub data Request : Type 0 where
  stat get remove : (uid : ℕ) (task : ℤ) (remote : ℕ) → Request
  set add : (uid : ℕ) (task : ℤ) (remote tap_type : ℕ) (tap_value : ℤ) → Request
  pass : Request

module _ {H L : Type 0} (env : Env H L) (c : PaContext) where
  -- The request, with its error.
  unfoldable pub run_request : Request → Cmd H L ℤ
  unfolding stat_reserve get_tap_params set_tap_params add_reserve_params_for_uid
      remove_reserve_params_for_uid clear_unused
  run_request (stat uid task remote) = do
    (err, out) ← stat_reserve env (some c) uid task remote local local
    pure err
  run_request (get uid task remote) = do
    (err, out) ← get_tap_params env (some c) uid task remote local local
    pure err
  run_request (remove uid task remote) = remove_reserve_params_for_uid env (some c) uid task remote
  run_request (set uid task remote tap_type tap_value) = do
    (err, out) ← set_tap_params env (some c) uid task remote tap_type tap_value local
    pure err
  run_request (add uid task remote tap_type tap_value) = do
    (err, out) ← add_reserve_params_for_uid env (some c) uid task remote tap_type tap_value local
    pure err
  run_request pass = do (err, out) ← clear_unused env c.dbase local; pure err

  -- The states that a sequence of requests with their errors leads to, the last one first.
  pub data History (start : World H L) : List (Request × ℤ) → World H L → Type 0 where
    begin : History start [] start
    then_request :
        {past : List (Request × ℤ)} {w : World H L}
        → History start past w
        → (r : Request) (err : ℤ) (w' : World H L) → run_request r w ≡ ok err w'
        → History start ((r, err) ∷ past) w'

-- The specification: a partial map from uids to the type and the value of a tap.
abbrev pub Params : Type 0
Params = ℕ → Option (ℕ × ℤ)

abbrev pub replaced : ℕ × ℤ → Option (ℕ × ℤ) → Option (ℕ × ℤ)
replaced new none = none
replaced new (some old) = some new

-- The request with this error succeeded, and it was for `k`.
abbrev pub concerns : (uid : ℕ) (err : ℤ) (k : ℕ) → Bool
concerns uid err k = is_zero err && (uid == k)

abbrev pub applied : Request → ℤ → Params → Params
applied (set uid task remote tap_type tap_value) err m k =
    if concerns uid err k then replaced (tap_type, tap_value) (m k) else m k
applied (add uid task remote tap_type tap_value) err m k =
    if concerns uid err k then some (tap_type, tap_value) else m k
applied (remove uid task remote) err m k = if concerns uid err k then none else m k
applied (stat uid task remote) err m k = m k
applied (get uid task remote) err m k = m k
applied pass err m k = m k

unfoldable pub replayed : List (Request × ℤ) → Params → Params
replayed [] m = m
replayed ((r, err) ∷ past) m = applied r err (replayed past m)

abbrev pub removes : Request → ℤ → ℕ → Bool
removes (remove uid task remote) err k = concerns uid err k
removes (stat uid task remote) err k = false
removes (get uid task remote) err k = false
removes (set uid task remote tap_type tap_value) err k = false
removes (add uid task remote tap_type tap_value) err k = false
removes pass err k = false

-- Was the uid removed?
unfoldable pub was_removed : List (Request × ℤ) → ℕ → Bool
was_removed [] k = false
was_removed ((r, err) ∷ past) k = if removes r err k then true else was_removed past k
