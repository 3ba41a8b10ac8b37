-- ===== src/Validation/Plumbing/Taps.antt =====
-- The handlers of cinder_ptest.c for taps, and those with no system call of Cinder. What the kernel
-- stores of a tap is not printed here.
use cinder_userspace.Base.{ℕ, zero, suc, not, ◌+◌, List, length, if◌then◌else◌}
use cinder_userspace.Base.Int.{pos, pos_part, is_neg, nonzero, enosys}
use cinder_userspace.Base.Text.{codes, format_d}
use cinder_userspace.Os.{Env, getpid}
use cinder_userspace.Store.{Cmd, pure, ◌>>=◌, ◌>>◌, assert, perform}
use cinder_userspace.Syscall.{
  cinder_max_namelen, cinder_create_tap, cinder_tap_set_rate, cinder_delete_tap,
}
use cinder_userspace.Stdin.{chomp, atol}
use cinder_userspace.Console.{Handler}
use cinder_userspace.Console.Prompts.{id_size, amount_size}
use cinder_userspace.Console.Reserves.{num_taps, get_tap, has_id, tap_info}
use cinder_userspace.Validation.Plumbing.{text, with_number, say, with_line, reporting}

module _ {H L : Type 0} (env : Env H L) where
  unfoldable pub handle_create_tap : Handler H L
  unfolding chomp atol cinder_create_tap
  handle_create_tap =
      with_line env "Please enter the name for the tap: " "Error reading name.\n" cinder_max_namelen
        (λ name.
          with_line env "Please enter the source reserve id.\n" "Error reading id.\n" id_size
            (λ src.
              with_line env "Please enter the destination reserve id.\n" "Error reading id.\n"
                id_size
                (λ dest.
                  reporting env
                    (λ ret.
                      if is_neg ret
                      then with_number "Error creating tap: " ret "\n"
                      else with_number "Created tap with id " ret "\n")
                    (cinder_create_tap env (chomp name) (length (chomp name) + 1) (atol src)
                      (atol dest)))))

  unfoldable pub handle_tap_set_rate : Handler H L
  unfolding atol cinder_tap_set_rate
  handle_tap_set_rate =
      with_line env "Please enter the tap id.\n" "Error reading id.\n" id_size (λ tap_id.
        with_line env "Please enter the rate type (1 for constant, 2 for proportional).\n"
          "Error reading rate type.\n" amount_size
          (λ rate_type.
            with_line env "Please enter the rate value.\n" "Error reading rate value.\n" amount_size
              (λ value.
                reporting env (λ ret. with_number "Set tap rate returned: " ret "\n")
                  (cinder_tap_set_rate env (atol tap_id) (atol rate_type) (atol value)))))

  -- The report of an index that fails lacks an argument of printf, which is undefined.
  unfoldable pub list_taps_from : (left index : ℕ) → Cmd H L (Unit {0})
  unfolding get_tap format_d
  list_taps_from zero index = pure tt
  list_taps_from (suc left) index = do
    reserve ← get_tap env index
    assert (not (is_neg reserve))
    say env (has_id (codes "Tap ") index reserve)
    list_taps_from left (index + 1)

  unfoldable pub handle_list_taps : Handler H L
  unfolding num_taps list_taps_from
  handle_list_taps input = do
    say env (text "Enumerating taps:\n")
    num ← num_taps env
    if is_neg num
        then (do
          say env (with_number "Getting number of taps returned " num "\n")
          pure (num, input))
        else (do
          say env (with_number "Found " num " taps:\n")
          list_taps_from (pos_part num) 0
          say env (text "Done enumerating taps.\n")
          pure (pos 0, input))

  unfoldable pub handle_info_tap : Handler H L
  unfolding atol tap_info
  handle_info_tap =
      with_line env "Please enter the tap id.\n" "Error reading id.\n" id_size (λ id input. do
        ret ← tap_info env (atol id)
        if nonzero ret
            then (do say env (with_number "Error getting tap info: " ret "\n"); pure (ret, input))
            else pure (ret, input))

  unfoldable pub handle_delete_tap : Handler H L
  unfolding atol cinder_delete_tap
  handle_delete_tap =
      with_line env "Please enter the tap id.\n" "Error reading id.\n" id_size (λ id.
        reporting env (λ ret. with_number "Delete tap returned " ret "\n")
          (cinder_delete_tap env (atol id)))

  unfoldable pub handle_pid : Handler H L
  handle_pid = reporting env (λ pid. with_number "Pid is " pid "\n") (perform env getpid)

  -- The handlers for which there is no system call yet.
  unfoldable pub without_syscall : (name : List ℕ) → Handler H L
  without_syscall name input = do say env name; pure (enosys, input)
