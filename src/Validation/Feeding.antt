-- ===== src/Validation/Feeding.antt =====
-- feed.c, starve.c and loop.c of CinderUserspace/cinder_validation/plumbing_test. The texts that explain
-- their use are left out.
use cinder_userspace.Base.{
  ℕ, zero, suc, ◌+◌, ◌^◌, ◌≤◌, ◌<◌, ◌≡◌, refl, arith, Bool-cases, inl, inr, List, [], ◌∷◌, ◌++◌,
  ltb,
}
use cinder_userspace.Base.Int.{ℤ, pos}
use cinder_userspace.Base.Text.{codes, format_d, word_32}
use cinder_userspace.Os.{Env, getpid, print, syscall}
use cinder_userspace.Store.{
  World, out_of_fuel, fault, Cmd, pure, ◌>>=◌, ◌>>◌, assert, perform, perform_,
}
use cinder_userspace.Stdin.{atol}
use cinder_userspace.Validation.Plumbing.{with_number, say}

abbrev sys_starve : ℕ
sys_starve = 376

abbrev sys_feed : ℕ
sys_feed = 377

module _ {H L : Type 0} (env : Env H L) where
  -- The exit status of each program.
  unfoldable pub feed : (argv : List (List ℕ)) → Cmd H L ℤ
  unfolding atol with_number
  feed (program ∷ pid ∷ []) = do
    ret ← perform env (syscall sys_feed (atol pid ∷ []))
    say env (with_number "Feed returned " ret "\n")
    pure (pos 0)
  feed _ = pure (pos 1)

  unfoldable pub starve : (argv : List (List ℕ)) → Cmd H L ℤ
  unfolding atol with_number
  starve (program ∷ pid ∷ []) = do
    ret ← perform env (syscall sys_starve (atol pid ∷ []))
    say env (with_number "Starve returned " ret "\n")
    pure (pos 0)
  starve _ = pure (pos 1)

  -- The loop of loop.c, which does not end; its counter is an int, whose overflow is undefined.
  unfoldable pub print_for_ever : (fuel : ℕ) (pid : ℤ) (i : ℕ) → Cmd H L ℤ
  unfolding format_d
  print_for_ever zero pid i = λ w. out_of_fuel
  print_for_ever (suc fuel) pid i = do
    assert (ltb (i + 1) (2 ^ 31))
    perform_ env (
        print (
          codes "PID is "
          ++ (format_d (word_32 pid) ++ (codes " counter " ++ (format_d i ++ codes "\n")))))
    print_for_ever fuel pid (i + 1)

  unfoldable pub loop : (fuel : ℕ) → Cmd H L ℤ
  unfolding print_for_ever
  loop fuel = do pid ← perform env getpid; print_for_ever fuel pid 0

  -- However many numbers are left to the counter, it overflows behind the last.
  print_for_ever_overflows :
      (fuel : ℕ) (pid : ℤ) (i : ℕ) (w : World H L)
      → i < 2 ^ 31
      → 2 ^ 31 ≤ i + fuel
      → print_for_ever fuel pid i w ≡ fault
  unfolding print_for_ever
  print_for_ever_overflows zero pid i w small enough = absurd (omega (arith, small, enough))
  print_for_ever_overflows (suc fuel) pid i w small enough =
      elim (Bool-cases (ltb (i + 1) (2 ^ 31))) [
        | inl e ↦ rw e (
            print_for_ever_overflows fuel pid (i + 1) _ (ground (arith, e)) (omega (arith, enough)))
        | inr e ↦ rw e refl
      ]

  -- The program never ends by itself: with rounds for every int its counter overflows.
  loop_overflows : (fuel : ℕ) (w : World H L) → 2 ^ 31 ≤ fuel → loop fuel w ≡ fault
  unfolding loop
  loop_overflows fuel w enough =
      print_for_ever_overflows fuel _ 0 _ (omega arith) (omega (arith, enough))
