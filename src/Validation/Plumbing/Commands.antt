-- ===== src/Validation/Plumbing/Commands.antt =====
-- The commands of cinder_ptest.c. The loop runs on fuel, one round for each byte of the input and one
-- for its end. The count to 999999999 in front of a list of reserves only takes time.
use Prim.Native.String.{String}
use cinder_userspace.Base.{ℕ, zero, suc, ◌+◌, List, [], ◌∷◌, none, some, if◌then◌else◌, length}
use cinder_userspace.Base.Int.{ℤ, pos}
use cinder_userspace.Base.Text.{codes}
use cinder_userspace.Os.{Env}
use cinder_userspace.Store.{out_of_fuel, Cmd, pure, ◌>>=◌, ◌>>◌}
use cinder_userspace.Stdin.{fgets, chomp, same_text}
use cinder_userspace.Console.{Handler}
use cinder_userspace.Validation.Plumbing.{text, with_number, say}
use cinder_userspace.Validation.Plumbing.Reserves.{
  handle_create_reserve, handle_reserve_transfer, handle_info_reserve, handle_reserve_level,
  handle_list_reserves, handle_expose_reserve, handle_put_reserve,
}
use cinder_userspace.Validation.Plumbing.Taps.{
  handle_create_tap, handle_tap_set_rate, handle_list_taps, handle_info_tap, handle_delete_tap,
  handle_pid, without_syscall,
}

-- INPUT_SIZE
abbrev pub input_size : ℕ
input_size = 30

module _ {H L : Type 0} (env : Env H L) where
  unfoldable pub say_all : List String → Cmd H L (Unit {0})
  say_all [] = pure tt
  say_all (line ∷ lines) = do say env (text line); say_all lines

  unfoldable pub handle_help : Handler H L
  handle_help input = do
    say_all (
        "Usage: \n" ∷ "cr: create reserve\n" ∷ "pr: put reserve\n"
        ∷ "er: expose reserve to other process\n" ∷ "ir: info for reserve\n" ∷ "rl: reserve level\n"
        ∷ "lr: list reserves for process\n"
        ∷ "lar: list all reserves for system (not actual release method)\n"
        ∷ "rt: do reserve transfer\n" ∷ "ct: create tap\n" ∷ "dt: delete tap\n" ∷ "ir: info tap\n"
        ∷ "tr: set tap rate\n" ∷ "lt: list taps for process\n"
        ∷ "lat: list all taps for system (not actual release method)\n"
        ∷ "pid: print current process pid\n" ∷ "help: print this message\n"
        ∷ "batt: list battery info (not actual release method)\n"
        ∷ "rr: list root reserve info (not actual release method)\n"
        ∷ "stats: list various stats (not actual release method)\n" ∷ "\n\n" ∷ [])
    pure (pos 0, input)

  unfoldable pub counted_list_reserves : Handler H L
  counted_list_reserves input = do
    say env (with_number "" (pos 999999999) "\n")
    handle_list_reserves env input

  unfoldable pub invalid_input : Handler H L
  invalid_input input = do
    say_all ("Invalid input, skipping.\n" ∷ "Type 'help' for more info.\n" ∷ [])
    pure (pos 0, input)

  -- The handler of a command.
  unfoldable pub run_command : (input : List ℕ) → Handler H L
  run_command input =
      if same_text input (codes "cr")
      then handle_create_reserve env
      else if same_text input (codes "pr")
      then handle_put_reserve env
      else if same_text input (codes "lr")
      then counted_list_reserves
      else if same_text input (codes "lar")
      then without_syscall env (text "list all reserves\n")
      else if same_text input (codes "ir")
      then handle_info_reserve env
      else if same_text input (codes "rl")
      then handle_reserve_level env
      else if same_text input (codes "er")
      then handle_expose_reserve env
      else if same_text input (codes "rt")
      then handle_reserve_transfer env
      else if same_text input (codes "pid")
      then handle_pid env
      else if same_text input (codes "ct")
      then handle_create_tap env
      else if same_text input (codes "dt")
      then handle_delete_tap env
      else if same_text input (codes "tr")
      then handle_tap_set_rate env
      else if same_text input (codes "lt")
      then handle_list_taps env
      else if same_text input (codes "lat")
      then without_syscall env (text "list all taps\n")
      else if same_text input (codes "it")
      then handle_info_tap env
      else if same_text input (codes "batt")
      then without_syscall env (text "battery\n")
      else if same_text input (codes "rr")
      then without_syscall env (text "root reserve\n")
      else if same_text input (codes "stats")
      then without_syscall env (text "stats\n")
      else if same_text input (codes "help")
      then handle_help
      else invalid_input

  -- The end of the input ends the loop; what a handler returns is not used.
  unfoldable pub command_loop : (fuel : ℕ) (stdin : List ℕ) → Cmd H L (Unit {0})
  unfolding chomp
  command_loop zero stdin = λ w. out_of_fuel
  command_loop (suc fuel) stdin = elim ((fgets input_size stdin).0) [
    | none ↦ say env (text "Got EOF, quitting...\n")
    | some line ↦ (do
      (ret, rest) ← run_command (chomp line) ((fgets input_size stdin).1)
      command_loop fuel rest)
  ]

  -- The exit status; `stdin` is the whole input.
  unfoldable pub main : (stdin : List ℕ) → Cmd H L ℤ
  main stdin = do
    say env (text "Accepting commands (type 'help' for more info)\n")
    command_loop (length stdin + 1) stdin
    pure (pos 0)
