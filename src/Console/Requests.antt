-- ===== src/Console/Requests.antt =====
-- CinderUserspace/PAController/client.c: the requests to the daemon over its socket, in the layout
-- of the structures of protocol.h.
use cinder_userspace.Base.{
  ℕ, ◌+◌, ◌/◌, ◌%◌, Bool, ◌||◌, not, List, [], ◌++◌, Option, none, some, ◌==◌, if◌then◌else◌,
}
use cinder_userspace.Base.Int.{ℤ, pos, negsuc, nonzero, einval}
use cinder_userspace.Base.Text.{codes, digits, format_d, word_64}
use cinder_userspace.Os.{Env, print}
use cinder_userspace.Store.{Cmd, pure, ◌>>=◌, ◌>>◌, gets, perform_}
use cinder_userspace.Record.{local, stored}
use cinder_userspace.Syscall.{cinder_tap_rate_constant, cinder_tap_rate_proportional}
use cinder_userspace.Context.{
  pa_stat_reserve, pa_get_tap_params, pa_set_tap_params, pa_add_uid_params, pa_remove_uid_params,
  pa_goodbye, pa_no_error, pa_bad_permissions, pa_uid_not_found, pa_invalid_input, pa_failure,
  pa_uid_exists, pa_reserve_granted, pa_use_root_reserve,
}
use cinder_userspace.Sock.{streamsock_read, streamsock_send}
use cinder_userspace.Wire.{
  bytes, field, number, signed_64, request_size, uid_query_size, params_query_size,
  stat_response_size, get_response_size, error_response_size, write_set_query, write_add_query,
}
use cinder_userspace.Console.{Handler, on_answer}
use cinder_userspace.Console.Prompts.{ask_uid, ask_params}

-- "%u", and "%lld" of a 64-bit number; 20 rounds of fuel serve 64 bits.
abbrev format_u : ℕ → List ℕ
unfolding digits
format_u n = digits 10 n []

abbrev format_lld : ℤ → List ℕ
unfolding digits
format_lld (pos n) = digits 20 n []
format_lld (negsuc n) = codes "-" ++ digits 20 (n + 1) []

-- What __handle_response prints; the last text has a "d" behind the number.
unfoldable pub response_text : (error : ℕ) → List ℕ
unfolding digits
response_text error =
    if error == pa_uid_exists
    then codes "Error: UID already exists.\n"
    else if error == pa_invalid_input
    then codes "Error: Invalid input received.\n"
    else if error == pa_bad_permissions
    then codes "Error: Bad permissions.\n"
    else if error == pa_failure
    then codes "Error: Operation failed.\n"
    else if error == pa_no_error
    then codes "Success: Operation completed.\n"
    else if error == pa_uid_not_found
    then codes "Error: UID not found.\n"
    else codes "Error: Unexpected error condition: " ++ (format_u error ++ codes "d\n")

unfoldable pub mapping_text : (uid tap_type : ℕ) (tap_value : ℤ) → List ℕ
unfolding digits format_d
mapping_text uid tap_type tap_value =
    let kind =
      if tap_type == cinder_tap_rate_constant
      then codes "Constant"
      else if tap_type == cinder_tap_rate_proportional
      then codes "Proportion"
      else codes "Unknown" in
    codes "UID "
    ++ (format_d uid
        ++ (codes " has mapping with tap type "
            ++ (kind ++ (codes " and tap value " ++ (format_lld tap_value ++ codes "\n")))))

-- Is the bit of a flag, which is a power of 2, set?
abbrev pub has_flag : (flags flag : ℕ) → Bool
has_flag flags flag = not (flags / flag % 2 == 0)

module _ {H L : Type 0} (env : Env H L) where
  unfoldable pub handle_response : (error : ℕ) → Cmd H L (Unit {0})
  unfolding response_text
  handle_response error = perform_ env (print (response_text error))

  -- The send of the request type, which disconnectFromServer does alone: the error, whether to go
  -- on, and `num_transferred`, which is not initialised before.
  unfoldable pub transmit :
      (sock : ℤ) (message : List ℕ) (size num_transferred : ℕ) → Cmd H L (ℤ × Bool × ℕ)
  unfolding streamsock_send
  transmit sock message size num_transferred = do
    (ret, sent) ← streamsock_send env sock local message size local
    let num_transferred = stored sent num_transferred
    pure (ret, nonzero ret || not (num_transferred == size), num_transferred)

  -- From "Send request" to the response, as each handler has it: the return value where it stops,
  -- and the response where it goes on.
  unfoldable pub exchange :
      (sock : ℤ) (request_type : ℕ) (query : List ℕ) (query_size response_size : ℕ)
      → Cmd H L (ℤ × Option (List ℕ))
  unfolding transmit streamsock_read bytes
  exchange sock request_type query query_size response_size = do
    unset ← gets (λ w. env.indeterminate w.trace 0)
    (ret, stop, num_transferred) ← transmit sock (bytes 4 request_type) request_size (word_64 unset)
    if stop then pure (ret, none) else do
      (ret, stop, num_transferred) ← transmit sock query query_size num_transferred
      if stop then pure (ret, none) else do
        r ← streamsock_read env sock local response_size response_size local
        if nonzero r.err || not (stored r.num_bytes_read num_transferred == response_size)
            then pure (r.err, none)
            else pure (pos 0, some r.buf)

  -- The end of a handler behind its response.
  abbrev pub on_response : (List ℕ → Cmd H L ℤ) → ℤ × Option (List ℕ) → Cmd H L ℤ
  on_response finish (ret, none) = pure ret
  on_response finish (ret, some response) = finish response

  -- The end of the handlers whose response is an error alone.
  unfoldable pub report_error : (response : List ℕ) → Cmd H L ℤ
  unfolding handle_response number
  report_error response = do handle_response (field 0 4 response); pure (pos 0)

  unfoldable pub handle_add_reserve_mapping : (socket_fd : ℤ) → Handler H L
  unfolding ask_params exchange write_add_query report_error
  handle_add_reserve_mapping socket_fd = on_answer ask_params (λ query.
      exchange socket_fd pa_add_uid_params (write_add_query query) params_query_size
        error_response_size
      >>= on_response report_error)

  unfoldable pub handle_del_reserve_mapping : (socket_fd : ℤ) → Handler H L
  unfolding ask_uid exchange bytes report_error
  handle_del_reserve_mapping socket_fd = on_answer ask_uid (λ uid.
      exchange socket_fd pa_remove_uid_params (bytes 8 uid) uid_query_size error_response_size
      >>= on_response report_error)

  unfoldable pub report_mapping : (uid : ℕ) (response : List ℕ) → Cmd H L ℤ
  unfolding handle_response number mapping_text
  report_mapping uid response = do
    handle_response (field 16 4 response)
    if field 16 4 response == pa_no_error
        then (do
          perform_ env
              (print (mapping_text uid (field 0 8 response) (signed_64 (field 8 8 response))))
          pure (pos 0))
        else pure (pos 0)

  unfoldable pub handle_get_reserve_mapping_data : (socket_fd : ℤ) → Handler H L
  unfolding ask_uid exchange bytes report_mapping
  handle_get_reserve_mapping_data socket_fd = on_answer ask_uid (λ uid.
      exchange socket_fd pa_get_tap_params (bytes 8 uid) uid_query_size get_response_size
      >>= on_response (report_mapping uid))

  unfoldable pub handle_set_reserve_mapping_data : (socket_fd : ℤ) → Handler H L
  unfolding ask_params exchange write_set_query report_error
  handle_set_reserve_mapping_data socket_fd = on_answer ask_params (λ query.
      exchange socket_fd pa_set_tap_params (write_set_query query) params_query_size
        error_response_size
      >>= on_response report_error)

  unfoldable pub report_reserve : (uid : ℕ) (response : List ℕ) → Cmd H L ℤ
  unfolding handle_response number format_d
  report_reserve uid response = do
    let flags = field 4 4 response
    handle_response (field 8 4 response)
    if not (field 8 4 response == pa_no_error) then pure (pos 0) else do
      perform_ env (print (codes "For UID " ++ (format_d uid ++ codes ": ")))
      if has_flag flags pa_use_root_reserve
          then (do perform_ env (print (codes "Use Root Reserve.\n")); pure (pos 0))
          else if has_flag flags pa_reserve_granted
          then (do
            perform_ env (
                print (
                  codes "Granted access to reserve with ID "
                  ++ (format_d (field 0 4 response) ++ codes "\n")))
            pure (pos 0))
          else pure einval

  unfoldable pub handle_connect_to_uid_reserve : (socket_fd : ℤ) → Handler H L
  unfolding ask_uid exchange bytes report_reserve
  handle_connect_to_uid_reserve socket_fd = on_answer ask_uid (λ uid.
      exchange socket_fd pa_stat_reserve (bytes 8 uid) uid_query_size stat_response_size
      >>= on_response (report_reserve uid))

  unfoldable pub disconnect_from_server : (socket_fd : ℤ) → Cmd H L ℤ
  unfolding transmit bytes
  disconnect_from_server socket_fd = do
    unset ← gets (λ w. env.indeterminate w.trace 0)
    (ret, stop, num_transferred) ←
        transmit socket_fd (bytes 4 pa_goodbye) request_size (word_64 unset)
    if stop then pure ret else pure (pos 0)
