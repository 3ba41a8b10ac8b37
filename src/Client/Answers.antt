-- ===== src/Client/Answers.antt =====
-- The handlers of CinderUserspace/PowerArbiter/client.c, and what goes over the client's socket.
use cinder_userspace.Base.{
  sym, ap, ◌∙◌, ℕ, ◌+◌, ◌≡◌, ◌≤◌, ◌<◌, ◌^◌, refl, true, false, List, ◌++◌, some, arith, ◌==◌, ltb,
  length, Option-cases, inl, inr, if◌then◌else◌,
}
use cinder_userspace.Base.Int.{ℤ, is_zero, nonzero, eq_ℤ}
use cinder_userspace.Os.{null, Trace, Env}
use cinder_userspace.Os.Ledger.{delivered, bytes_received, opened}
use cinder_userspace.Store.{
  Run, ok, fault, out_of_fuel, World, Cmd, pure, ◌>>=◌, Returns, Returns-bind, Returns-and,
  Returns-mono, if-Returns,
}
use cinder_userspace.Record.{local, stored}
use cinder_userspace.Client.Responses.{
  length-stat_response, length-get_response, length-write_error_response,
}
use cinder_userspace.Context.{PaContext}
use cinder_userspace.Sock.{Received, minus_one, streamsock_read, streamsock_send}
use cinder_userspace.Sock.Calls.{opened-SocketCalls}
use cinder_userspace.Sock.Read.{ReadDone, streamsock_read-ReadDone}
use cinder_userspace.Sock.Count.{Counted, streamsock_read-count}
use cinder_userspace.Sock.Send.{SendDone, streamsock_send-SendDone}
use cinder_userspace.Wire.{to_uid, field, write_error_response, read_set_query, read_add_query}
use cinder_userspace.Controller.{
  stat_reserve, get_tap_params, set_tap_params, add_reserve_params_for_uid,
  remove_reserve_params_for_uid,
}
use cinder_userspace.Controller.Safe.{Safe}
use cinder_userspace.Controller.Silent.{
  Silent, get_tap_params-Silent, set_tap_params-Silent, stat_reserve-Silent, add-Silent,
  remove-Silent,
}
use cinder_userspace.Client.Safe.{accepted_client, read_message-Safe}
use cinder_userspace.Client.{
  get_response, set_error, add_error, remove_error, read_message, respond, stat_response,
  handle_stat_reserve, handle_get_tap_params, handle_set_tap_params, handle_add_params_for_uid,
  handle_remove_params_for_uid,
}

module _ {H L : Type 0} (env : Env H L) (errno_set : (t : Trace) → is_zero (env.errno t) ≡ false)
    (sock : ℤ) (open_sock : eq_ℤ sock minus_one ≡ false) where
  -- Reading a message sends nothing, and makes and closes no socket; a message that is read has its size.
  unfoldable pub Heard : (size : ℕ) (w : World H L) → ℤ × List ℕ → World H L → Type 0
  Heard size w (err, m) w' =
      (bytes_received w.trace ≤ bytes_received w'.trace)
      × (delivered sock w'.trace ≡ delivered sock w.trace)
      × (opened w'.trace ≡ opened w.trace)
      × (is_zero err ≡ true → bytes_received w'.trace ≡ bytes_received w.trace + size)

  heard :
      (size : ℕ) (w : World H L) (r : Received) (w' : World H L)
      → ReadDone env size w r w'
      → Counted env List.[] w r w'
      → nonzero r.err ≡ false
      → ltb (stored r.num_bytes_read 0) size ≡ false
      → bytes_received w'.trace ≡ bytes_received w.trace + size
  heard size w r w' d c e f = elim (Option-cases r.num_bytes_read) [
    | inl n ↦ ground (arith, d.failed n, errno_set w'.trace, e)
    | inr (n, q) ↦ ground (arith, d.counted n q, c, f, q)
  ]

  pub read_message-Heard :
      (size : ℕ) (w : World H L)
      → size < 2 ^ 64
      → Returns (Heard size w) (read_message env sock size w)
  unfolding read_message Heard
  read_message-Heard size w small =
      Returns-bind (Heard size w) (λ r w'. ReadDone env size w r w' × Counted env List.[] w r w')
        (streamsock_read env sock local size size local w) _
        (Returns-and (ReadDone env size w) (Counted env List.[] w) _
          (streamsock_read-ReadDone env sock local size size local w open_sock refl (omega arith)
            small refl)
          (streamsock_read-count env sock local size size local w open_sock refl (omega arith) small
            refl))
        (λ r w' (d, c).
          if-Returns (Heard size w) (nonzero r.err) _ _ w'
            (λ bad. (
              omega (arith, c),
              d.silent sock,
              opened-SocketCalls d.on_socket.calls,
              λ z. ground (arith, bad, z),
            ))
            (λ good.
              if-Returns (Heard size w) (ltb (stored r.num_bytes_read 0) size) _ _ w'
                (λ short.
                  (omega (arith, c), d.silent sock, opened-SocketCalls d.on_socket.calls, λ z. cc))
                (λ whole. (
                  omega (arith, c),
                  d.silent sock,
                  opened-SocketCalls d.on_socket.calls,
                  λ z. heard size w r w' d c good whole,
                ))))

  -- One response of `size` bytes was sent, where the return value is 0.
  pub record Answered (size : ℕ) (w : World H L) (ret : ℤ) (w' : World H L) : Type 0 where
    pub hears : bytes_received w.trace ≤ bytes_received w'.trace
    pub kept : opened w'.trace ≡ opened w.trace
    pub answers :
        is_zero ret ≡ true
        → (m : List ℕ) × (delivered sock w'.trace ≡ delivered sock w.trace ++ m) × (length m ≡ size)

  respond-Answered :
      (response : List ℕ) (size : ℕ) (w : World H L)
      → size ≡ length response
      → size < 2 ^ 64
      → Returns (Answered size w) (respond env sock response size w)
  unfolding respond
  respond-Answered response size w whole small =
      Returns-bind (Answered size w) (SendDone env sock response size w)
        (streamsock_send env sock local response size local w) _
        (streamsock_send-SendDone env sock local response size local w open_sock refl refl whole
          small)
        (λ (err, sent) w' d. record {
          hears = omega (arith, d.deaf);
          kept = opened-SocketCalls d.on_socket.calls;
          answers = λ z. elim (Option-cases sent) [
            | inl n ↦ absurd (ground (arith, d.failed n, errno_set w'.trace, z))
            | inr (n, e) ↦ (response, (d.sent n e).2, sym whole)
          ];
        })

  module _ (c : PaContext) (uid gid : ℕ) (pid : ℤ) (db : (c.dbase == null) ≡ false) (w : World H L)
      (s : Safe env w) where
    -- Behind the read of a query, on both outcomes.
    after_read :
        (size answer : ℕ) (next : List ℕ → Cmd H L ℤ)
        → size < 2 ^ 64
        → ((m : List ℕ) (u : World H L) → Safe env u → Returns (Answered answer u) (next m u))
        → Returns
            (Answered answer w)
            ((do (err, m) ← read_message env sock size; if nonzero err then pure err else next m) w)
    unfolding Heard
    after_read size answer next small more =
        Returns-bind (Answered answer w) (λ a u. Heard size w a u × Safe env u)
          (read_message env sock size w) _
          (Returns-and (Heard size w) (λ a. Safe env) _ (read_message-Heard size w small)
            (read_message-Safe env sock open_sock size w small s))
          (λ (err, m) u ((more_bytes, same, kept, whole), s').
            if-Returns (Answered answer w) (nonzero err) _ (next m) u
              (λ bad. record {
                hears = more_bytes;
                kept = kept;
                answers = λ z. absurd (ground (arith, bad, z));
              })
              (λ good.
                Returns-mono (Answered answer u) (Answered answer w) (next m u) (more m u s')
                  (λ ret w' d. record {
                    hears = omega (arith, more_bytes, d.hears);
                    kept = d.kept ∙ kept;
                    answers = λ z.
                        let (r, sent, size) = d.answers z in
                        (r, sent ∙ ap (λ b. b ++ r) same, size);
                  })))

    -- The response to what a request of the controller returned.
    answer_of :
        {A : Type 0} (size : ℕ) (u : World H L) (run : Run H L A) (response : A → List ℕ)
        → size < 2 ^ 64
        → ((a : A) → length (response a) ≡ size)
        → Returns (λ a. Silent sock u) run
        → Returns (Answered size u) (elim run [
          | ok a w' ↦ respond env sock (response a) size w'
          | fault ↦ fault
          | out_of_fuel ↦ out_of_fuel
        ])
    answer_of size u run response small whole silent =
        Returns-bind (Answered size u) (λ a. Silent sock u) run
          (λ a. respond env sock (response a) size) silent
          (λ a v (same, deaf, kept).
            Returns-mono (Answered size v) (Answered size u) _
              (respond-Answered (response a) size v (sym (whole a)) small)
              (λ ret w' d. record {
                hears = omega (arith, deaf, d.hears);
                kept = d.kept ∙ kept;
                answers = λ z.
                    let (r, sent, size) = d.answers z in (r, sent ∙ ap (λ b. b ++ r) same, size);
              }))

    pub handle_stat_reserve-Answered :
        Returns (Answered 12 w) (handle_stat_reserve env (accepted_client c sock uid gid pid) w)
    unfolding handle_stat_reserve
    handle_stat_reserve-Answered = after_read 8 12 _ (omega arith) (λ m u s'.
        answer_of 12 u (stat_reserve env (some c) (to_uid (field 0 8 m)) pid uid local local u)
          (λ a.
            stat_response (a.0) ((stored (a.1) (env.indeterminate u.trace 0, 0)).0)
              ((stored (a.1) (env.indeterminate u.trace 0, 0)).1))
          (omega arith)
          (λ a.
            length-stat_response (a.0) ((stored (a.1) (env.indeterminate u.trace 0, 0)).0)
              ((stored (a.1) (env.indeterminate u.trace 0, 0)).1))
          (stat_reserve-Silent env c (to_uid (field 0 8 m)) pid uid u db s'.inv sock local local))

    pub handle_get_tap_params-Answered :
        Returns (Answered 24 w) (handle_get_tap_params env (accepted_client c sock uid gid pid) w)
    unfolding handle_get_tap_params
    handle_get_tap_params-Answered = after_read 8 24 _ (omega arith) (λ m u s'.
        answer_of 24 u (get_tap_params env (some c) (to_uid (field 0 8 m)) pid uid local local u)
          (λ a.
            get_response (a.0) ((stored (a.1) (0, env.indeterminate u.trace 0)).0)
              ((stored (a.1) (0, env.indeterminate u.trace 0)).1) (env.indeterminate u.trace 1))
          (omega arith)
          (λ a.
            length-get_response (a.0) ((stored (a.1) (0, env.indeterminate u.trace 0)).0)
              ((stored (a.1) (0, env.indeterminate u.trace 0)).1) (env.indeterminate u.trace 1))
          (get_tap_params-Silent env c (to_uid (field 0 8 m)) pid uid u db s'.inv sock local local))

    pub handle_set_tap_params-Answered :
        Returns (Answered 4 w) (handle_set_tap_params env (accepted_client c sock uid gid pid) w)
    unfolding handle_set_tap_params
    handle_set_tap_params-Answered = after_read 24 4 _ (omega arith) (λ m u s'.
        answer_of 4 u
          (set_tap_params env (some c) (to_uid (read_set_query m).uid) pid uid
            (read_set_query m).tap_type (read_set_query m).tap_value local u)
          (λ a. write_error_response (set_error (a.0) (stored (a.1) 0))) (omega arith)
          (λ a. length-write_error_response (set_error (a.0) (stored (a.1) 0)))
          (set_tap_params-Silent env c (to_uid (read_set_query m).uid) pid uid u db s'.inv sock
            (read_set_query m).tap_type (read_set_query m).tap_value local))

    pub handle_add_params_for_uid-Answered :
        Returns
          (Answered 4 w)
          (handle_add_params_for_uid env (accepted_client c sock uid gid pid) w)
    unfolding handle_add_params_for_uid
    handle_add_params_for_uid-Answered = after_read 24 4 _ (omega arith) (λ m u s'.
        answer_of 4 u
          (add_reserve_params_for_uid env (some c) (to_uid (read_add_query m).uid) pid uid
            (read_add_query m).tap_type (read_add_query m).tap_value local u)
          (λ a. write_error_response (add_error (a.0) (stored (a.1) 0))) (omega arith)
          (λ a. length-write_error_response (add_error (a.0) (stored (a.1) 0)))
          (add-Silent env c (to_uid (read_add_query m).uid) pid uid u db s'.inv sock
            (read_add_query m).tap_type (read_add_query m).tap_value local))

    pub handle_remove_params_for_uid-Answered :
        Returns
          (Answered 4 w)
          (handle_remove_params_for_uid env (accepted_client c sock uid gid pid) w)
    unfolding handle_remove_params_for_uid
    handle_remove_params_for_uid-Answered = after_read 8 4 _ (omega arith) (λ m u s'.
        answer_of 4 u (remove_reserve_params_for_uid env (some c) (to_uid (field 0 8 m)) pid uid u)
          (λ a. write_error_response (remove_error a)) (omega arith)
          (λ a. length-write_error_response (remove_error a))
          (remove-Silent env c (to_uid (field 0 8 m)) pid uid u db s'.inv sock))
