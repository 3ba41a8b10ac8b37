-- ===== src/Console/Commands.antt =====
-- CinderUserspace/PAController/main.c: the connection to the daemon, and the commands. The loop runs
-- on fuel, one round for each byte of the input and one for its end.
use cinder_userspace.Base.{ℕ, zero, suc, ◌+◌, List, none, some, if◌then◌else◌, length}
use cinder_userspace.Base.Int.{ℤ, pos, is_neg, nonzero}
use cinder_userspace.Base.Text.{codes}
use cinder_userspace.Os.{Env, socket, connect, close}
use cinder_userspace.Store.{out_of_fuel, Cmd, pure, ◌>>=◌, ◌>>◌, gets, perform, perform_}
use cinder_userspace.Stdin.{fgets, chomp, same_text}
use cinder_userspace.Console.{Handler}
use cinder_userspace.Console.Reserves.{
  handle_list_reserves, handle_put_reserve, handle_info_reserve,
}
use cinder_userspace.Console.Requests.{
  handle_add_reserve_mapping, handle_del_reserve_mapping, handle_get_reserve_mapping_data,
  handle_set_reserve_mapping_data, handle_connect_to_uid_reserve, disconnect_from_server,
}

-- INPUT_SIZE
abbrev pub input_size : ℕ
input_size = 30

-- POWER_ARBITER_SOCKPATH of util.h
abbrev pub sockpath : List ℕ
sockpath = codes "/data/power_arbiter"

-- A handler whose return value is not used.
abbrev pub ignoring : {H L : Type 0} → Handler H L → Handler H L
ignoring handler input = do (ret, rest) ← handler input; pure (pos 0, rest)

module _ {H L : Type 0} (env : Env H L) where
  -- The error, and the socket that is stored at `sock`. The socket stays open where `connect` fails.
  unfoldable pub connect_to_arbiter : Cmd H L (ℤ × ℤ)
  connect_to_arbiter = do
    socket_fd ← perform env socket
    if is_neg socket_fd then (do err ← gets (λ w. env.errno w.trace); pure (err, socket_fd)) else do
      failed ← perform env (connect socket_fd sockpath)
      if nonzero failed
          then (do err ← gets (λ w. env.errno w.trace); pure (err, socket_fd))
          else pure (pos 0, socket_fd)

  -- The value of `err` behind one command, which the usage text or an unknown word leaves at 0.
  unfoldable pub run_command : (socket_fd : ℤ) (input : List ℕ) → Handler H L
  unfolding handle_add_reserve_mapping handle_del_reserve_mapping handle_get_reserve_mapping_data
      handle_set_reserve_mapping_data handle_connect_to_uid_reserve handle_list_reserves
      handle_put_reserve handle_info_reserve
  run_command socket_fd input =
      if same_text input (codes "add")
      then handle_add_reserve_mapping env socket_fd
      else if same_text input (codes "del")
      then handle_del_reserve_mapping env socket_fd
      else if same_text input (codes "get")
      then handle_get_reserve_mapping_data env socket_fd
      else if same_text input (codes "set")
      then handle_set_reserve_mapping_data env socket_fd
      else if same_text input (codes "connect")
      then handle_connect_to_uid_reserve env socket_fd
      else if same_text input (codes "list")
      then ignoring (handle_list_reserves env)
      else if same_text input (codes "put")
      then ignoring (handle_put_reserve env)
      else if same_text input (codes "info")
      then ignoring (handle_info_reserve env)
      else (λ rest. pure (pos 0, rest))

  unfoldable pub command_loop : (fuel : ℕ) (socket_fd : ℤ) (stdin : List ℕ) → Cmd H L (Unit {0})
  unfolding fgets chomp run_command disconnect_from_server
  command_loop zero socket_fd stdin = λ w. out_of_fuel
  command_loop (suc fuel) socket_fd stdin = elim ((fgets input_size stdin).0) [
    | none ↦ pure tt
    | some line ↦ (do
      (err, rest) ← run_command socket_fd (chomp line) ((fgets input_size stdin).1)
      if nonzero err
          then (do ret ← disconnect_from_server env socket_fd; pure tt)
          else command_loop fuel socket_fd rest)
  ]

  -- The exit status; `stdin` is the whole input.
  unfoldable pub main : (stdin : List ℕ) → Cmd H L ℤ
  unfolding connect_to_arbiter command_loop
  main stdin = do
    (err, socket_fd) ← connect_to_arbiter
    if nonzero err then pure (pos 1) else do
      command_loop (length stdin + 1) socket_fd stdin
      perform_ env (close socket_fd)
      pure (pos 0)
