-- ===== src/Client/Safe.antt =====
-- The handlers of CinderUserspace/PowerArbiter/client.c, and the state between requests.
use cinder_userspace.Base.{
  sym, ℕ, ◌≡◌, ◌<◌, ◌^◌, refl, false, List, some, arith, ◌==◌, ltb, length, Bool-cases, inl, inr,
  if◌then◌else◌,
}
use cinder_userspace.Base.Int.{ℤ, nonzero, eq_ℤ}
use cinder_userspace.Os.{null, Env}
use cinder_userspace.Store.{
  Run, ok, fault, out_of_fuel, World, Cmd, pure, ◌>>=◌, Returns, Returns-bind,
}
use cinder_userspace.Record.{local, stored}
use cinder_userspace.Client.Responses.{
  length-stat_response, length-get_response, length-write_error_response,
}
use cinder_userspace.Context.{
  PaContext, pa_stat_reserve, pa_get_tap_params, pa_set_tap_params, pa_add_uid_params,
  pa_remove_uid_params,
}
use cinder_userspace.Sock.{minus_one, streamsock_read, streamsock_send}
use cinder_userspace.Sock.Calls.{OnSocket, OnSocket-Inv, locked-SocketCalls}
use cinder_userspace.Sock.Read.{ReadDone, streamsock_read-ReadDone}
use cinder_userspace.Sock.Send.{SendDone, streamsock_send-SendDone}
use cinder_userspace.Wire.{to_uid, field, write_error_response, read_set_query, read_add_query}
use cinder_userspace.Controller.{
  stat_reserve, get_tap_params, set_tap_params, add_reserve_params_for_uid,
  remove_reserve_params_for_uid,
}
use cinder_userspace.Controller.Safe.{
  Safe, get_tap_params-Safe, set_tap_params-Safe, stat_reserve-Safe, add-Safe, remove-Safe,
}
use cinder_userspace.Client.{
  get_response, set_error, add_error, remove_error, ClientData, read_message, respond,
  stat_response, handle_stat_reserve, handle_get_tap_params, handle_set_tap_params,
  handle_add_params_for_uid, handle_remove_params_for_uid, handle_request,
}

-- What the thread of an accepted client is given.
abbrev pub accepted_client : PaContext → ℤ → ℕ → ℕ → ℤ → ClientData
accepted_client c sock uid gid pid = record {
  client_sock = sock;
  uid = uid;
  gid = gid;
  pid = pid;
  progctx = some c;
}

module _ {H L : Type 0} (env : Env H L) where
  OnSocket-Safe : (w w' : World H L) → OnSocket w w' → Safe env w → Safe env w'
  OnSocket-Safe w w' o s = record {
    inv = OnSocket-Inv env w w' o s.inv;
    free = λ m. rw (locked-SocketCalls m o.calls) (s.free m);
  }

  module _ (sock : ℤ) (opened : eq_ℤ sock minus_one ≡ false) where
    pub read_message-Safe :
        (size : ℕ) (w : World H L)
        → size < 2 ^ 64
        → Safe env w
        → Returns (λ a. Safe env) (read_message env sock size w)
    unfolding read_message
    read_message-Safe size w small s =
        Returns-bind (λ a. Safe env) (ReadDone env size w)
          (streamsock_read env sock local size size local w) _
          (streamsock_read-ReadDone env sock local size size local w opened refl (omega arith) small
            refl)
          (λ r w' d. elim (Bool-cases (nonzero r.err)) [
            | inl e ↦ rw (e, Returns) (OnSocket-Safe w w' d.on_socket s)
            | inr e ↦
                rw (e, Returns)
                  (elim (Bool-cases (ltb (stored r.num_bytes_read 0) size)) [
                    | inl e ↦ rw (e, Returns) (OnSocket-Safe w w' d.on_socket s)
                    | inr e ↦ rw (e, Returns) (OnSocket-Safe w w' d.on_socket s)
                  ])
          ])

    pub respond-Safe :
        (response : List ℕ) (size : ℕ) (w : World H L)
        → size ≡ length response
        → size < 2 ^ 64
        → Safe env w
        → Returns (λ a. Safe env) (respond env sock response size w)
    unfolding respond
    respond-Safe response size w whole small s =
        Returns-bind (λ a. Safe env) (SendDone env sock response size w)
          (streamsock_send env sock local response size local w) _
          (streamsock_send-SendDone env sock local response size local w opened refl refl whole
            small)
          (λ a w' d. OnSocket-Safe w w' d.on_socket s)

  module _ (c : PaContext) (sock : ℤ) (uid gid : ℕ) (pid : ℤ) (db : (c.dbase == null) ≡ false)
      (opened : eq_ℤ sock minus_one ≡ false) (w : World H L) (s : Safe env w) where
    -- Behind the read, on both outcomes.
    after_read :
        (size : ℕ) (next : List ℕ → Cmd H L ℤ)
        → size < 2 ^ 64
        → ((m : List ℕ) (w : World H L) → Safe env w → Returns (λ a. Safe env) (next m w))
        → Returns
            (λ a. Safe env)
            ((do (err, m) ← read_message env sock size; if nonzero err then pure err else next m) w)
    after_read size next small more =
        Returns-bind (λ a. Safe env) (λ a. Safe env) (read_message env sock size w) _
          (read_message-Safe sock opened size w small s)
          (λ a w' s'. elim (Bool-cases (nonzero (a.0))) [
            | inl e ↦ rw (e, Returns) s'
            | inr e ↦ rw (e, Returns) (more (a.1) w' s')
          ])

    answered :
        {A : Type 0} (size : ℕ) (run : Run H L A) (response : A → List ℕ)
        → size < 2 ^ 64
        → ((a : A) → length (response a) ≡ size)
        → Returns (λ a. Safe env) run
        → Returns
            (λ a. Safe env)
            (elim run [
              | ok a w' ↦ respond env sock (response a) size w'
              | fault ↦ fault
              | out_of_fuel ↦ out_of_fuel
            ])
    answered size run response small whole more =
        Returns-bind (λ a. Safe env) (λ a. Safe env) run (λ a. respond env sock (response a) size)
          more
          (λ a w'' s''. respond-Safe sock opened (response a) size w'' (sym (whole a)) small s'')

    handle_stat_reserve-Safe :
        Returns (λ a. Safe env) (handle_stat_reserve env (accepted_client c sock uid gid pid) w)
    unfolding handle_stat_reserve
    handle_stat_reserve-Safe = after_read 8 _ (omega arith) (λ m w' s'.
        answered 12 (stat_reserve env (some c) (to_uid (field 0 8 m)) pid uid local local w')
          (λ a.
            stat_response (a.0) ((stored (a.1) (env.indeterminate w'.trace 0, 0)).0)
              ((stored (a.1) (env.indeterminate w'.trace 0, 0)).1))
          (omega arith)
          (λ a.
            length-stat_response (a.0) ((stored (a.1) (env.indeterminate w'.trace 0, 0)).0)
              ((stored (a.1) (env.indeterminate w'.trace 0, 0)).1))
          (stat_reserve-Safe env c (to_uid (field 0 8 m)) pid uid w' db s' local local))

    handle_get_tap_params-Safe :
        Returns (λ a. Safe env) (handle_get_tap_params env (accepted_client c sock uid gid pid) w)
    unfolding handle_get_tap_params
    handle_get_tap_params-Safe = after_read 8 _ (omega arith) (λ m w' s'.
        answered 24 (get_tap_params env (some c) (to_uid (field 0 8 m)) pid uid local local w')
          (λ a.
            get_response (a.0) ((stored (a.1) (0, env.indeterminate w'.trace 0)).0)
              ((stored (a.1) (0, env.indeterminate w'.trace 0)).1) (env.indeterminate w'.trace 1))
          (omega arith)
          (λ a.
            length-get_response (a.0) ((stored (a.1) (0, env.indeterminate w'.trace 0)).0)
              ((stored (a.1) (0, env.indeterminate w'.trace 0)).1) (env.indeterminate w'.trace 1))
          (get_tap_params-Safe env c (to_uid (field 0 8 m)) pid uid w' db s' local local))

    handle_set_tap_params-Safe :
        Returns (λ a. Safe env) (handle_set_tap_params env (accepted_client c sock uid gid pid) w)
    unfolding handle_set_tap_params
    handle_set_tap_params-Safe = after_read 24 _ (omega arith) (λ m w' s'.
        answered 4
          (set_tap_params env (some c) (to_uid (read_set_query m).uid) pid uid
            (read_set_query m).tap_type (read_set_query m).tap_value local w')
          (λ a. write_error_response (set_error (a.0) (stored (a.1) 0))) (omega arith)
          (λ a. length-write_error_response (set_error (a.0) (stored (a.1) 0)))
          (set_tap_params-Safe env c (to_uid (read_set_query m).uid) pid uid w' db s'
            (read_set_query m).tap_type (read_set_query m).tap_value local))

    handle_add_params_for_uid-Safe :
        Returns
          (λ a. Safe env)
          (handle_add_params_for_uid env (accepted_client c sock uid gid pid) w)
    unfolding handle_add_params_for_uid
    handle_add_params_for_uid-Safe = after_read 24 _ (omega arith) (λ m w' s'.
        answered 4
          (add_reserve_params_for_uid env (some c) (to_uid (read_add_query m).uid) pid uid
            (read_add_query m).tap_type (read_add_query m).tap_value local w')
          (λ a. write_error_response (add_error (a.0) (stored (a.1) 0))) (omega arith)
          (λ a. length-write_error_response (add_error (a.0) (stored (a.1) 0)))
          (add-Safe env c (to_uid (read_add_query m).uid) pid uid w' db s'
            (read_add_query m).tap_type (read_add_query m).tap_value local))

    handle_remove_params_for_uid-Safe :
        Returns
          (λ a. Safe env)
          (handle_remove_params_for_uid env (accepted_client c sock uid gid pid) w)
    unfolding handle_remove_params_for_uid
    handle_remove_params_for_uid-Safe = after_read 8 _ (omega arith) (λ m w' s'.
        answered 4 (remove_reserve_params_for_uid env (some c) (to_uid (field 0 8 m)) pid uid w')
          (λ a. write_error_response (remove_error a)) (omega arith)
          (λ a. length-write_error_response (remove_error a))
          (remove-Safe env c (to_uid (field 0 8 m)) pid uid w' db s'))

    -- Whatever the client asks and sends, whatever the calls answer: with an open socket and a
    -- context that has a database, from a state whose database satisfies its invariant and in which
    -- no lock is held, a request ends, with no fault and no loop that runs out of fuel, in such a
    -- state again.
    pub handle_request-Safe :
        (request_type : ℕ)
        → Returns
            (λ a. Safe env)
            (handle_request env (accepted_client c sock uid gid pid) request_type w)
    unfolding handle_request
    handle_request-Safe n = elim (Bool-cases (n == pa_stat_reserve)) [
      | inl e ↦ rw (e, Returns) handle_stat_reserve-Safe
      | inr e ↦
          rw (e, Returns)
            (elim (Bool-cases (n == pa_get_tap_params)) [
              | inl e ↦ rw (e, Returns) handle_get_tap_params-Safe
              | inr e ↦
                  rw (e, Returns)
                    (elim (Bool-cases (n == pa_set_tap_params)) [
                      | inl e ↦ rw (e, Returns) handle_set_tap_params-Safe
                      | inr e ↦
                          rw (e, Returns)
                            (elim (Bool-cases (n == pa_add_uid_params)) [
                              | inl e ↦ rw (e, Returns) handle_add_params_for_uid-Safe
                              | inr e ↦
                                  rw (e, Returns)
                                    (elim (Bool-cases (n == pa_remove_uid_params)) [
                                      | inl e ↦ rw (e, Returns) handle_remove_params_for_uid-Safe
                                      | inr e ↦ rw (e, Returns) s
                                    ])
                            ])
                    ])
            ])
    ]
