-- ===== src/Validation/Subdivide/Threads.antt =====
-- What a thread of test2_subdivide_thread.c counts.
use cinder_userspace.Base.{
  ℕ, zero, suc, ◌+◌, ◌%◌, ◌^◌, ◌<◌, ◌≡◌, refl, sym, true, false, Bool, [], ◌∷◌, ◌++◌, Option, none,
  some, arith, if◌then◌else◌, Bool-cases, inl, inr,
}
use cinder_userspace.Base.Int.{ℤ, pos, nonzero}
use cinder_userspace.Os.{Call, Trace, Env, syscall, getpid}
use cinder_userspace.Os.Ledger.{asked}
use cinder_userspace.Store.{World, Returns, ok, logged}
use cinder_userspace.Console.Reserves.{sys_set_active_reserve}
use cinder_userspace.Validation.Subdivide.{count_while, test_method}

-- What the last call returned.
abbrev pub latest : Trace → ℤ
latest [] = pos 0
latest (e ∷ t) = e.ret

-- The reserve was asked for, and last; the thread has counted where that call returned 0.
abbrev pub Counted :
    {H L : Type 0} (rounds : ℕ) (reserve_id : ℤ) (w : World H L) → Option ℕ → World H L → Type 0
Counted rounds reserve_id w counter w' =
    (asked sys_set_active_reserve w'.trace
      ≡ asked sys_set_active_reserve w.trace ++ (reserve_id ∷ []) ∷ [])
    × (counter ≡ (if nonzero (latest w'.trace) then none else some (rounds % 2 ^ 32)))

from_zero : (n : ℕ) → 0 + n ≡ n
from_zero n = omega arith

module _ {H L : Type 0} (env : Env H L) (running : ℕ → Bool) where
  count_while-counts :
      (fuel later round counter : ℕ) (w : World H L)
      → counter < 2 ^ 32
      → ((i : ℕ) → i < later → running (round + i) ≡ true)
      → running (round + later) ≡ false
      → later < fuel
      → count_while env fuel round counter running w ≡ ok ((counter + later) % 2 ^ 32) w
  unfolding count_while
  count_while-counts zero later round counter w small runs stops enough =
      absurd (omega (arith, enough))
  count_while-counts (suc fuel) zero round counter w small runs stops enough =
      let here : round + 0 ≡ round = omega arith in
      let same : (counter + 0) % 2 ^ 32 ≡ counter = omega (arith, small) in
      let stop : running round ≡ false = rw here at stops in rw (stop, same) refl
  count_while-counts (suc fuel) (suc later) round counter w small runs stops enough =
      let here : round + 0 ≡ round = omega arith in
      let run : running round ≡ true = rw here at (runs 0 (omega arith)) in
      let sum : (counter + suc later) % 2 ^ 32 ≡ ((counter + 1) % 2 ^ 32 + later) % 2 ^ 32 =
        omega arith in
      rw (run, sum)
        (count_while-counts fuel later (round + 1) ((counter + 1) % 2 ^ 32) w (omega arith)
          (λ i h.
            let next : round + 1 + i ≡ round + suc i = omega arith in
            rw next (runs (suc i) (omega (arith, h))))
          (let last : round + 1 + later ≡ round + suc later = omega arith in rw last stops)
          (omega (arith, enough)))

  -- A thread of test2_subdivide_thread that finds keep_running set in its first `later` rounds, and
  -- unset in the next, ends within later + 1 rounds. It has asked for its reserve to be the active
  -- one, once and as its last call; where that returned 0 its result is `later`, modulo 2^32, and
  -- otherwise the process ends.
  pub test_method-Counted :
      (fuel later : ℕ) (reserve_id : ℤ) (w : World H L)
      → ((i : ℕ) → i < later → running i ≡ true)
      → running later ≡ false
      → later < fuel
      → Returns (Counted later reserve_id w) (test_method env fuel running reserve_id w)
  unfolding test_method asked
  test_method-Counted fuel later reserve_id w runs stops enough =
      elim (Bool-cases (nonzero (env.result started.trace active))) [
        | inl bad ↦ rw (bad, Returns) (refl, rw bad refl)
        | inr good ↦ rw (good, Returns, counted) (refl, rw good refl)
      ]
    where
      started : World H L
      started = logged w getpid (env.result w.trace getpid)

      active : Call
      active = syscall sys_set_active_reserve (reserve_id ∷ [])

      counted :
          count_while env fuel 0 0 running (logged started active (env.result started.trace active))
          ≡ ok (later % 2 ^ 32) (logged started active (env.result started.trace active))
      counted = rw (sym (from_zero later)) (
          count_while-counts fuel later 0 0 _ (omega arith) (λ i h. rw (from_zero i) (runs i h))
            (rw (from_zero later) stops) enough)
