-- ===== src/Validation/Subdivide/Ends.antt =====
-- How a run of test2_subdivide_thread.c ends.
use cinder_userspace.Base.{
  ℕ, ◌+◌, ◌^◌, ◌<◌, ◌≡◌, refl, ◌∙◌, true, false, List, Option, none, some, arith, [], ◌∷◌,
}
use cinder_userspace.Base.Int.{ℤ, pos, is_zero}
use cinder_userspace.Os.{Env}
use cinder_userspace.Os.Ledger.{reserves}
use cinder_userspace.Store.{World, Cmd, Returns, Returns-bind, Returns-mono, pure}
use cinder_userspace.Validation.Ledger.{rates, links}
use cinder_userspace.Validation.Subdivide.Flows.{Divided, subdivide-Divided}
use cinder_userspace.Validation.Subdivide.{
  Arguments, TestArgs, subdivide, read_arguments, run_threads, main,
}

-- What the threads are given.
abbrev pub thread_args : ℤ × ℤ × ℤ → List TestArgs
thread_args (a, b, c) =
    record { id = b'A'; reserve_id = a }
    ∷ record { id = b'B'; reserve_id = b }
    ∷ record { id = b'C'; reserve_id = c }
    ∷ []

-- The status, and what a run with status 0 has set up.
abbrev pub Ended :
    {H L : Type 0} (args : Arguments) (w : World H L) → ℤ × List TestArgs → World H L → Type 0
Ended args w (status, threads) w' =
    (is_zero status ≡ false → status ≡ pos 1)
    × (is_zero status ≡ true
        → (ids : ℤ × ℤ × ℤ) × (threads ≡ thread_args ids) × Divided args w (some ids) w')

module _ {H L : Type 0} (env : Env H L) where
  -- The threads have nothing to do with the taps.
  run_threads-rates :
      (n : ℕ) (ids : ℤ × ℤ × ℤ) (w : World H L)
      → Returns
          (λ a w'.
            (rates w'.trace ≡ rates w.trace)
            × (links w'.trace ≡ links w.trace)
            × (reserves w'.trace ≡ reserves w.trace)
            × (is_zero (a.0) ≡ false → a.0 ≡ pos 1)
            × (is_zero (a.0) ≡ true → a.1 ≡ thread_args ids))
          (run_threads env n ids w)
  unfolding run_threads rates links reserves
  run_threads-rates n (a, b, c) w = ground arith

  -- With arguments that its tests accept, whose weights have a positive sum below 2^31,
  -- test2_subdivide_thread ends, with status 0 or 1 and no conversion that is undefined. With
  -- status 0 it has created four reserves, and has made one tap from the root to the first and one
  -- from there to each of the others, and no other; the threads A, B and C are given these three in
  -- order. It has set the rates of those three in order, each proportional with the percentage of
  -- its weight, then the constant rate of the main tap, and no other.
  pub main_divides :
      (argv : List (List ℕ)) (args : Arguments) (w : World H L)
      → read_arguments argv ≡ some args
      → 0 < args.weight_a + args.weight_b + args.weight_c
      → args.weight_a + args.weight_b + args.weight_c < 2 ^ 31
      → Returns (Ended args w) (main env argv w)
  unfolding main
  main_divides argv args w valid some_weight fits =
      rw (Returns, main, valid)
        (Returns-bind (Ended args w) (Divided args w) (subdivide env args w) _
          (subdivide-Divided env args w some_weight fits) (λ o u d. after o u d))
    where
      after :
          (o : Option (ℤ × ℤ × ℤ)) (u : World H L)
          → Divided args w o u
          → Returns (Ended args w) (
              (elim o as (λ o. Cmd H L (ℤ × List TestArgs)) [
                | none ↦ pure (pos 1, [])
                | some ids ↦ run_threads env args.runtime_seconds ids
              ])
                u)
      after none u d = (λ z. refl, λ z. cc)
      after (some ids) u (reserve, tap, tap_a, tap_b, tap_c, made, set, new) =
          Returns-mono _ (Ended args w) _ (run_threads-rates args.runtime_seconds ids u)
            (λ a w' (same_rates, same_links, same_reserves, one, given). (
              one,
              λ z. (
                ids,
                given z,
                (
                  reserve,
                  tap,
                  tap_a,
                  tap_b,
                  tap_c,
                  same_links ∙ made,
                  same_rates ∙ set,
                  same_reserves ∙ new,
                ),
              ),
            ))
