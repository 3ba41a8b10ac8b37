-- ===== src/Client.antt =====
-- CinderUserspace/PowerArbiter/client.c: a client's session. `ctx` holds what the handler thread
-- reads of its ClientData; a handler reads its query, calls the controller and sends the response.
pub mod Accept
pub mod Responses
pub mod Safe
pub mod Answers
pub mod Session
use cinder_userspace.Base.{ℕ, zero, suc, ◌&&◌, List, [], Option, ◌==◌, ltb, if◌then◌else◌}
use cinder_userspace.Base.Int.{ℤ, pos, nonzero, eq_ℤ, eperm, enoent, eexist, einval, eproto}
use cinder_userspace.Os.{Ptr, free, close, Env}
use cinder_userspace.Store.{out_of_fuel, Cmd, pure, ◌>>=◌, ◌>>◌, gets, perform_}
use cinder_userspace.Record.{local, stored}
use cinder_userspace.Context.{
  PaContext, pa_stat_reserve, pa_get_tap_params, pa_set_tap_params, pa_add_uid_params,
  pa_remove_uid_params, pa_goodbye, pa_no_error, pa_bad_permissions, pa_uid_not_found,
  pa_invalid_input, pa_failure, pa_uid_exists,
}
use cinder_userspace.Sock.{streamsock_read, streamsock_send}
use cinder_userspace.Wire.{
  number, field, to_uid, request_size, uid_query_size, params_query_size, stat_response_size,
  get_response_size, error_response_size, read_set_query, read_add_query, write_stat_response,
  write_get_response, write_error_response,
}
use cinder_userspace.Controller.{
  stat_reserve, get_tap_params, set_tap_params, add_reserve_params_for_uid,
  remove_reserve_params_for_uid,
}

-- ClientData
pub record ClientData : Type 0 where
  pub client_sock : ℤ
  pub uid : ℕ
  pub gid : ℕ
  pub pid : ℤ
  pub progctx : Option PaContext

-- The error, and the bytes of a structure that was read whole.
abbrev pub Message : Type 0
Message = ℤ × List ℕ

-- The `error` field of a response, by the error that the controller returned.
unfoldable pub set_error : (err : ℤ) (error : ℕ) → ℕ
set_error err error =
    if eq_ℤ err eperm
    then pa_bad_permissions
    else if eq_ℤ err einval && (error == pa_invalid_input)
    then pa_invalid_input
    else if eq_ℤ err enoent
    then pa_uid_not_found
    else if nonzero err
    then pa_failure
    else pa_no_error

unfoldable pub add_error : (err : ℤ) (error : ℕ) → ℕ
add_error err error =
    if eq_ℤ err eexist
    then pa_uid_exists
    else if eq_ℤ err einval && (error == pa_invalid_input)
    then pa_invalid_input
    else if eq_ℤ err eperm
    then pa_bad_permissions
    else if nonzero err
    then pa_failure
    else pa_no_error

unfoldable pub remove_error : (err : ℤ) → ℕ
remove_error err =
    if eq_ℤ err eperm
    then pa_bad_permissions
    else if eq_ℤ err enoent
    then pa_uid_not_found
    else if nonzero err
    then pa_failure
    else pa_no_error

unfoldable pub get_response : (err : ℤ) (tap_type : ℕ) (tap_value padding : ℤ) → List ℕ
unfolding write_get_response
get_response err tap_type tap_value padding =
    if eq_ℤ err enoent
    then write_get_response 0 (pos 0) pa_uid_not_found padding
    else if eq_ℤ err eperm
    then write_get_response 0 (pos 0) pa_bad_permissions padding
    else if nonzero err
    then write_get_response 0 (pos 0) pa_failure padding
    else write_get_response tap_type tap_value pa_no_error padding

unfoldable pub stat_response : (err rid : ℤ) (flags : ℕ) → List ℕ
unfolding write_stat_response
stat_response err rid flags =
    if nonzero err
    then write_stat_response (pos 0) 0 pa_failure
    else write_stat_response rid flags pa_no_error

module _ {H L : Type 0} (env : Env H L) where
  -- The read of a structure, which each handler and __read_pa_request begin with.
  unfoldable pub read_message : (sock : ℤ) (size : ℕ) → Cmd H L Message
  unfolding streamsock_read
  read_message sock size = do
    r ← streamsock_read env sock local size size local
    if nonzero r.err
        then pure (r.err, [])
        else if ltb (stored r.num_bytes_read 0) size
        then pure (eproto, [])
        else pure (pos 0, r.buf)

  -- The return value of a handler is that of the send.
  unfoldable pub respond : (sock : ℤ) (response : List ℕ) (size : ℕ) → Cmd H L ℤ
  unfolding streamsock_send
  respond sock response size = do
    (err, sent) ← streamsock_send env sock local response size local
    pure err

  unfoldable pub handle_stat_reserve : ClientData → Cmd H L ℤ
  unfolding read_message respond stat_reserve stat_response number
  handle_stat_reserve ctx = do
    (err, query) ← read_message ctx.client_sock uid_query_size
    if nonzero err then pure err else do
      unset_rid ← gets (λ w. env.indeterminate w.trace 0)
      (err, out) ←
          stat_reserve env ctx.progctx (to_uid (field 0 8 query)) ctx.pid ctx.uid local local
      let (rid, flags) = stored out (unset_rid, 0)
      respond ctx.client_sock (stat_response err rid flags) stat_response_size

  unfoldable pub handle_get_tap_params : ClientData → Cmd H L ℤ
  unfolding read_message respond get_tap_params get_response number
  handle_get_tap_params ctx = do
    (err, query) ← read_message ctx.client_sock uid_query_size
    if nonzero err then pure err else do
      unset_value ← gets (λ w. env.indeterminate w.trace 0)
      padding ← gets (λ w. env.indeterminate w.trace 1)
      (err, out) ←
          get_tap_params env ctx.progctx (to_uid (field 0 8 query)) ctx.pid ctx.uid local local
      let (tap_type, tap_value) = stored out (0, unset_value)
      respond ctx.client_sock (get_response err tap_type tap_value padding) get_response_size

  unfoldable pub handle_set_tap_params : ClientData → Cmd H L ℤ
  unfolding read_message respond set_tap_params set_error read_set_query write_error_response
  handle_set_tap_params ctx = do
    (err, message) ← read_message ctx.client_sock params_query_size
    if nonzero err then pure err else do
      let query = read_set_query message
      (err, out) ←
          set_tap_params env ctx.progctx (to_uid query.uid) ctx.pid ctx.uid query.tap_type
            query.tap_value local
      respond ctx.client_sock (write_error_response (set_error err (stored out 0)))
          error_response_size

  unfoldable pub handle_add_params_for_uid : ClientData → Cmd H L ℤ
  unfolding read_message respond add_reserve_params_for_uid add_error read_add_query
      write_error_response
  handle_add_params_for_uid ctx = do
    (err, message) ← read_message ctx.client_sock params_query_size
    if nonzero err then pure err else do
      let query = read_add_query message
      (err, out) ←
          add_reserve_params_for_uid env ctx.progctx (to_uid query.uid) ctx.pid ctx.uid
            query.tap_type query.tap_value local
      respond ctx.client_sock (write_error_response (add_error err (stored out 0)))
          error_response_size

  unfoldable pub handle_remove_params_for_uid : ClientData → Cmd H L ℤ
  unfolding read_message respond remove_reserve_params_for_uid remove_error write_error_response
      number
  handle_remove_params_for_uid ctx = do
    (err, query) ← read_message ctx.client_sock uid_query_size
    if nonzero err then pure err else do
      err ← remove_reserve_params_for_uid env ctx.progctx (to_uid (field 0 8 query)) ctx.pid ctx.uid
      respond ctx.client_sock (write_error_response (remove_error err)) error_response_size

  -- The handler of a request in the loop of __do_handle_client, where it is no goodbye.
  unfoldable pub handle_request : ClientData → (request_type : ℕ) → Cmd H L ℤ
  unfolding handle_stat_reserve handle_get_tap_params handle_set_tap_params
      handle_add_params_for_uid handle_remove_params_for_uid
  handle_request ctx request_type =
      if request_type == pa_stat_reserve
      then handle_stat_reserve ctx
      else if request_type == pa_get_tap_params
      then handle_get_tap_params ctx
      else if request_type == pa_set_tap_params
      then handle_set_tap_params ctx
      else if request_type == pa_add_uid_params
      then handle_add_params_for_uid ctx
      else if request_type == pa_remove_uid_params
      then handle_remove_params_for_uid ctx
      else pure einval

  session_loop : (fuel : ℕ) → ClientData → Cmd H L ℤ
  unfolding handle_request number
  session_loop zero ctx = λ w. out_of_fuel
  session_loop (suc fuel) ctx = do
    (err, request) ← read_message ctx.client_sock request_size
    if nonzero err then pure err else if field 0 4 request == pa_goodbye then pure (pos 0) else do
      err ← handle_request ctx (field 0 4 request)
      if nonzero err then pure err else session_loop fuel ctx

  -- __do_handle_client, whose context stands at `address`; `fuel` bounds the number of the requests.
  unfoldable pub do_handle_client : (fuel : ℕ) (address : Ptr) → ClientData → Cmd H L ℤ
  unfolding session_loop
  do_handle_client fuel address ctx = do
    err ← session_loop fuel ctx
    perform_ env (close ctx.client_sock)
    perform_ env (free address)
    pure err
