-- ===== src/Validation/Fork.antt =====
-- CinderUserspace/cinder_validation/reserve_tap_test/test1_fork.c: a child counts on a reserve that it
-- inherits, while its parent makes a tap flow into it. The times and the texts on the console are
-- left out. `unsigned long` has 32 bits.
pub mod Polls
pub mod Ends
use cinder_userspace.Base.{
  ℕ, zero, suc, ◌+◌, ◌-◌, ◌%◌, List, [], ◌∷◌, Option, none, some, ◌==◌, not, length, if◌then◌else◌,
}
use cinder_userspace.Base.Int.{ℤ, pos, is_zero, is_neg, is_pos, eq_ℤ}
use cinder_userspace.Base.Text.{codes, word_32}
use cinder_userspace.Os.{Env, getpid, fork, waitpid}
use cinder_userspace.Store.{Cmd, pure, ◌>>=◌, ◌>>◌, perform}
use cinder_userspace.Syscall.{cinder_tap_set_rate, cinder_tap_rate_constant}
use cinder_userspace.Sock.{minus_one}
use cinder_userspace.Stdin.{atol}
use cinder_userspace.Console.Prompts.{cap_reserve_draw}
use cinder_userspace.Console.Reserves.{
  reserve_level, add_reserve_to_child_list, del_reserve_from_child_list,
}
use cinder_userspace.Validation.Subdivide.{root_reserve_id, create_pair}

abbrev pub rsvname : List ℕ
rsvname = codes "testreserve"

abbrev pub tapname : List ℕ
tapname = codes "testtap"

-- The rate and the value to count to. The conversion of a negative `long` wraps around.
unfoldable pub read_arguments : (argv : List (List ℕ)) → Option (ℤ × ℕ)
unfolding atol
read_arguments (program ∷ rate ∷ max ∷ []) =
    if not (is_pos (atol rate))
    then none
    else if word_32 (atol max) == 0
    then none
    else some (atol rate, word_32 (atol max))
read_arguments _ = none

module _ {H L : Type 0} (env : Env H L) where
  -- The loop of the child, `left` rounds before its end: the level is asked for every 100 rounds.
  unfoldable pub count_up : (reserve_id : ℤ) (left counter : ℕ) → Cmd H L (Unit {0})
  unfolding reserve_level
  count_up reserve_id zero counter = pure tt
  count_up reserve_id (suc left) counter = do
    if counter % 100 == 0 then (do ret ← reserve_level env reserve_id; pure tt) else pure tt
    count_up reserve_id left (counter + 1)

  unfoldable pub test_method : (maxval : ℕ) (reserve_id : ℤ) → Cmd H L ℤ
  unfolding count_up
  test_method maxval reserve_id = do
    mypid ← perform env getpid
    count_up reserve_id maxval 0
    pure (pos 0)

  -- The parent, behind the fork: the exit status.
  unfoldable pub run_parent : (tap_id tap_rate forkpid : ℤ) → Cmd H L ℤ
  unfolding cinder_tap_set_rate
  run_parent tap_id tap_rate forkpid = do
    ret ← cinder_tap_set_rate env tap_id (pos cinder_tap_rate_constant) tap_rate
    if is_neg ret then pure (pos 1) else do
      waitresult ← perform env (waitpid forkpid)
      if eq_ℤ waitresult minus_one
          then pure (pos 1)
          else if not (eq_ℤ waitresult forkpid)
          then pure (pos 1)
          else pure (pos 0)

  -- The child list and the fork. Where `fork` returns 0 the run is that of the child, whose result
  -- is not used.
  unfoldable pub fork_child : (maxval : ℕ) (tap_rate reserve_id tap_id : ℤ) → Cmd H L ℤ
  unfolding test_method run_parent add_reserve_to_child_list del_reserve_from_child_list
  fork_child maxval tap_rate reserve_id tap_id = do
    ret ← del_reserve_from_child_list env root_reserve_id
    if is_neg ret then pure (pos 1) else do
      ret ← add_reserve_to_child_list env reserve_id cap_reserve_draw
      if is_neg ret then pure (pos 1) else do
        forkpid ← perform env fork
        if eq_ℤ forkpid minus_one
            then pure (pos 1)
            else if is_zero forkpid
            then (do ret ← test_method maxval reserve_id; pure (pos 0))
            else run_parent tap_id tap_rate forkpid

  -- The exit status.
  unfoldable pub main : (argv : List (List ℕ)) → Cmd H L ℤ
  main argv = elim (read_arguments argv) [
    | none ↦ pure (pos 1)
    | some (tap_rate, maxval) ↦ do
      created ← create_pair env rsvname tapname (length tapname + 1) root_reserve_id
      elim created [
        | none ↦ pure (pos 1)
        | some (reserve_id, tap_id) ↦ fork_child maxval tap_rate reserve_id tap_id
      ]
  ]
