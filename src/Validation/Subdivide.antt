-- ===== src/Validation/Subdivide.antt =====
-- CinderUserspace/cinder_validation/reserve_tap_test/test2_subdivide_thread.c: a reserve is divided
-- among three threads by their weights. `none` is the end of the process with status 1. The
-- texts on the console are left out, and with them the totals at the end.
pub mod Shares
pub mod Flows
pub mod Ends
pub mod Threads
use cinder_userspace.Base.{
  ℕ, zero, suc, ◌+◌, ◌%◌, ◌^◌, ◌||◌, Bool, List, [], ◌∷◌, Option, none, some, ltb, not, ◌==◌,
  length, if◌then◌else◌,
}
use cinder_userspace.Base.Int.{ℤ, pos, pos_part, is_neg, is_pos, nonzero}
use cinder_userspace.Base.Text.{codes}
use cinder_userspace.Os.{Env, getpid, pthread_create, pthread_join, sleep}
use cinder_userspace.Store.{fault, out_of_fuel, Cmd, pure, ◌>>=◌, ◌>>◌, assert, perform, perform_}
use cinder_userspace.Syscall.{
  cinder_create_reserve, cinder_create_tap, cinder_tap_set_rate, cinder_tap_rate_constant,
  cinder_tap_rate_proportional,
}
use cinder_userspace.Stdin.{atol}
use cinder_userspace.Console.Reserves.{set_active_reserve}
use cinder_userspace.Validation.Double.{quotient, times, truncated}

-- get_root_reserve_id
abbrev pub root_reserve_id : ℤ
root_reserve_id = pos 0

abbrev pub main_reserve_name : List ℕ
main_reserve_name = codes "main_reserve"

abbrev pub main_tap_name : List ℕ
main_tap_name = codes "main_tap"

-- The arguments: overall_tap_rate, the weights, runtime_seconds.
pub record Arguments : Type 0 where
  pub overall_tap_rate : ℤ
  pub weight_a : ℕ
  pub weight_b : ℕ
  pub weight_c : ℕ
  pub runtime_seconds : ℕ

-- struct test_args
pub record TestArgs : Type 0 where
  pub id : ℕ
  pub reserve_id : ℤ

-- The tests on the arguments.
unfoldable pub read_arguments : (argv : List (List ℕ)) → Option Arguments
unfolding atol
read_arguments (program ∷ rate ∷ a ∷ b ∷ c ∷ runtime ∷ []) =
    if not (is_pos (atol rate))
    then none
    else if is_neg (atol a) || is_neg (atol b) || is_neg (atol c)
    then none
    else if not (is_pos (atol runtime))
    then none
    else some (record {
      overall_tap_rate = atol rate;
      weight_a = pos_part (atol a);
      weight_b = pos_part (atol b);
      weight_c = pos_part (atol c);
      runtime_seconds = pos_part (atol runtime);
    })
read_arguments _ = none

-- (int)((((double)weight) / total_weight)*100)
unfoldable pub proportion : (weight total_weight : ℕ) → ℕ
unfolding truncated times quotient
proportion weight total_weight = truncated (times (quotient weight total_weight) 100)

module _ {H L : Type 0} (env : Env H L) where
  -- A reserve and a tap that leads to it: their ids.
  unfoldable pub create_pair :
      (reserve_name tap_name : List ℕ) (namelen : ℕ) (source : ℤ) → Cmd H L (Option (ℤ × ℤ))
  unfolding cinder_create_reserve cinder_create_tap
  create_pair reserve_name tap_name namelen source = do
    reserve_id ← cinder_create_reserve env reserve_name (length reserve_name + 1)
    if is_neg reserve_id then pure none else do
      tap_id ← cinder_create_tap env tap_name namelen source reserve_id
      if is_neg tap_id then pure none else pure (some (reserve_id, tap_id))

  -- The reserve and the tap of one thread. The length is that of the name of the main tap.
  unfoldable pub create_share :
      (reserve_name tap_name : List ℕ) (main_reserve_id : ℤ) (percent : ℕ) → Cmd H L (Option ℤ)
  unfolding cinder_tap_set_rate
  create_share reserve_name tap_name main_reserve_id percent = do
    created ← create_pair reserve_name tap_name (length main_tap_name + 1) main_reserve_id
    elim created [
      | none ↦ pure none
      | some (reserve_id, tap_id) ↦ do
        ret ← cinder_tap_set_rate env tap_id (pos cinder_tap_rate_proportional) (pos percent)
        if is_neg ret then pure none else pure (some reserve_id)
    ]

  -- The conversion of a quotient to int; x / 0 is an infinity or no number, and has no int.
  unfoldable pub percent_of : (weight total_weight : ℕ) → Cmd H L ℕ
  percent_of weight total_weight =
      if total_weight == 0 then (λ w. fault) else pure (proportion weight total_weight)

  -- From the creation of the main reserve to the flow of the main tap: the reserves of the threads.
  -- The sum of ints is undefined where it is no int.
  unfoldable pub subdivide : Arguments → Cmd H L (Option (ℤ × ℤ × ℤ))
  unfolding cinder_tap_set_rate percent_of
  subdivide args = do
    created ← create_pair main_reserve_name main_tap_name (length main_tap_name + 1) root_reserve_id
    elim created [
      | none ↦ pure none
      | some (main_reserve_id, main_tap_id) ↦ do
        let total_weight = args.weight_a + args.weight_b + args.weight_c
        assert (ltb total_weight (2 ^ 31))
        proportion_a ← percent_of args.weight_a total_weight
        proportion_b ← percent_of args.weight_b total_weight
        proportion_c ← percent_of args.weight_c total_weight
        a ← create_share (codes "A_reserve") (codes "A_tap") main_reserve_id proportion_a
        elim a [
          | none ↦ pure none
          | some a_reserve_id ↦ do
            b ← create_share (codes "B_reserve") (codes "B_tap") main_reserve_id proportion_b
            elim b [
              | none ↦ pure none
              | some b_reserve_id ↦ do
                c ← create_share (codes "C_reserve") (codes "C_tap") main_reserve_id proportion_c
                elim c [
                  | none ↦ pure none
                  | some c_reserve_id ↦ do
                    ret ←
                        cinder_tap_set_rate env main_tap_id (pos cinder_tap_rate_constant)
                          args.overall_tap_rate
                    if is_neg ret
                        then pure none
                        else pure (some (a_reserve_id, b_reserve_id, c_reserve_id))
                ]
            ]
        ]
    ]

  -- The loop of a thread, whose n-th test of keep_running is `running n`: the counter at its end.
  unfoldable pub count_while : (fuel round counter : ℕ) (running : ℕ → Bool) → Cmd H L ℕ
  count_while zero round counter running = λ w. out_of_fuel
  count_while (suc fuel) round counter running =
      if running round
      then count_while fuel (round + 1) ((counter + 1) % 2 ^ 32) running
      else pure counter

  -- A thread, with the reserve of its arguments; the process ends where it cannot set it.
  unfoldable pub test_method : (fuel : ℕ) (running : ℕ → Bool) (reserve_id : ℤ) → Cmd H L (Option ℕ)
  unfolding set_active_reserve count_while
  test_method fuel running reserve_id = do
    mypid ← perform env getpid
    ret ← set_active_reserve env reserve_id
    if nonzero ret
        then pure none
        else do counter ← count_while fuel 0 0 running; pure (some counter)

  -- The threads, from their creation to their joins: the exit status, and what the threads that
  -- were created are given.
  unfoldable pub run_threads :
      (runtime_seconds : ℕ) (reserves : ℤ × ℤ × ℤ) → Cmd H L (ℤ × List TestArgs)
  run_threads runtime_seconds (a_reserve_id, b_reserve_id, c_reserve_id) = do
    let a_args : TestArgs = record { id = b'A'; reserve_id = a_reserve_id }
    ret ← perform env pthread_create
    if nonzero ret then pure (pos 1, []) else do
      let b_args : TestArgs = record { id = b'B'; reserve_id = b_reserve_id }
      ret ← perform env pthread_create
      if nonzero ret then pure (pos 1, a_args ∷ []) else do
        let c_args : TestArgs = record { id = b'C'; reserve_id = c_reserve_id }
        ret ← perform env pthread_create
        if nonzero ret then pure (pos 1, a_args ∷ b_args ∷ []) else do
          perform_ env (sleep runtime_seconds)
          perform_ env (pthread_join 0)
          perform_ env (pthread_join 1)
          perform_ env (pthread_join 2)
          pure (pos 0, a_args ∷ b_args ∷ c_args ∷ [])

  -- The exit status, where no thread ends the process, and the threads.
  unfoldable pub main : (argv : List (List ℕ)) → Cmd H L (ℤ × List TestArgs)
  main argv = elim (read_arguments argv) [
    | none ↦ pure (pos 1, [])
    | some args ↦ do
      reserves ← subdivide args
      elim reserves [ none ↦ pure (pos 1, []) | some ids ↦ run_threads args.runtime_seconds ids ]
  ]
