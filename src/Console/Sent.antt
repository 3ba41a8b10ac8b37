-- ===== src/Console/Sent.antt =====
-- What `exchange` of CinderUserspace/PAController/client.c sends.
use mathlib.Core.List.{append_assoc}
use cinder_userspace.Base.{
  ℕ, ◌^◌, ◌<◌, ◌≡◌, refl, ◌∙◌, sym, if◌then◌else◌, ap, true, false, List, ◌++◌, Option, none, some,
  arith, length, Option-cases, inl, inr, ◌==◌, not, ◌||◌,
}
use cinder_userspace.Base.Int.{ℤ, pos, eq_ℤ, is_zero, nonzero}
use cinder_userspace.Base.Text.{word_64}
use cinder_userspace.Os.{Trace, Env}
use cinder_userspace.Os.Ledger.{delivered}
use cinder_userspace.Store.{World, Returns, Returns-bind, if-Returns, pure}
use cinder_userspace.Record.{local, stored}
use cinder_userspace.Sock.{minus_one, Received, streamsock_send, streamsock_read}
use cinder_userspace.Sock.Calls.{OnSocket, OnSocket-trans}
use cinder_userspace.Sock.Send.{SendDone, streamsock_send-SendDone}
use cinder_userspace.Sock.Read.{ReadDone, streamsock_read-ReadDone}
use cinder_userspace.Wire.{bytes, request_size}
use cinder_userspace.Wire.RoundTrip.{length-bytes}
use cinder_userspace.Console.Requests.{transmit, exchange}

module _ {H L : Type 0} (env : Env H L) (errno_set : (t : Trace) → is_zero (env.errno t) ≡ false)
    (sock : ℤ) (open_sock : eq_ℤ sock minus_one ≡ false) where
  -- `message` went over the socket, where the return value is 0.
  pub record Sent (message : List ℕ) (ret : ℤ) (w w' : World H L) : Type 0 where
    pub on_socket : OnSocket w w'
    pub sent : is_zero ret ≡ true → delivered sock w'.trace ≡ delivered sock w.trace ++ message

  pub transmit-Sent :
      (message : List ℕ) (size num_transferred : ℕ) (w : World H L)
      → size ≡ length message
      → size < 2 ^ 64
      → Returns
          (λ (ret, stop, num) w'. Sent message ret w w' × (is_zero ret ≡ not stop))
          (transmit env sock message size num_transferred w)
  unfolding transmit
  transmit-Sent message size num_transferred w l small =
      Returns-bind (λ (ret, stop, num) w'. Sent message ret w w' × (is_zero ret ≡ not stop))
        (SendDone env sock message size w) (streamsock_send env sock local message size local w) _
        (streamsock_send-SendDone env sock local message size local w open_sock refl refl l small)
        (λ (ret, sent) w' d. elim (Option-cases sent) [
          | inl e ↦ (
            record {
              on_socket = d.on_socket;
              sent = λ z. ground (arith, d.failed e, errno_set w'.trace);
            },
            ground (arith, d.failed e, errno_set w'.trace),
          )
          | inr (k, e) ↦ (
            record { on_socket = d.on_socket; sent = λ z. (d.sent k e).2 },
            ground (arith, (d.sent k e).0, (d.sent k e).1),
          )
        ])

  unsent :
      (message : List ℕ) (ret : ℤ) (w w' : World H L)
      → OnSocket w w'
      → is_zero ret ≡ false
      → Sent message ret w w'
  unsent message ret w w' s e = record { on_socket = s; sent = λ z. ground (arith, e) }

  Sent-trans :
      (first second : List ℕ) (a b : ℤ) (u v w : World H L)
      → Sent first a u v
      → is_zero a ≡ true
      → Sent second b v w
      → Sent (first ++ second) b u w
  Sent-trans first second a b u v w s z t = record {
    on_socket = OnSocket-trans u v w s.on_socket t.on_socket;
    sent = λ y.
        t.sent y
        ∙ (ap (λ m. m ++ second) (s.sent z) ∙ append_assoc (delivered sock u.trace) first second);
  }

  -- The request and the query went over the socket where the return value is 0, and only then may
  -- there be a response, which is whole.
  pub record Exchanged (message : List ℕ) (size : ℕ) (w : World H L) (a : ℤ × Option (List ℕ))
      (w' : World H L) : Type 0 where
    pub sent : Sent message (a.0) w w'
    pub answered : (m : List ℕ) → a.1 ≡ some m → (is_zero (a.0) ≡ true) × (length m ≡ size)

  pub exchange-Exchanged :
      (request_type : ℕ) (query : List ℕ) (query_size response_size : ℕ) (w : World H L)
      → query_size ≡ length query
      → query_size < 2 ^ 64
      → response_size < 2 ^ 64
      → Returns
          (Exchanged (bytes 4 request_type ++ query) response_size w)
          (exchange env sock request_type query query_size response_size w)
  unfolding exchange
  exchange-Exchanged request_type query query_size response_size w l small small' =
      Returns-bind (Exchanged message response_size w)
        (λ (ret, stop, num) w'. Sent request ret w w' × (is_zero ret ≡ not stop))
        (transmit env sock request request_size (word_64 (env.indeterminate w.trace 0)) w) _
        (transmit-Sent request request_size _ w (sym (length-bytes 4 request_type)) (omega arith))
        (λ (ret, stop, num) u (s, z).
          if-Returns (Exchanged message response_size w) stop _ _ u
            (λ e. record {
              sent = unsent message ret w u s.on_socket (ground arith);
              answered = λ m q. cc;
            })
            (λ e.
              Returns-bind (Exchanged message response_size w)
                (λ (ret, stop, num) w'. Sent query ret u w' × (is_zero ret ≡ not stop))
                (transmit env sock query query_size num u) _
                (transmit-Sent query query_size num u l small)
                (λ (ret', stop', num') v (s', z').
                  if-Returns (Exchanged message response_size w) stop' _ _ v
                    (λ e'. record {
                      sent =
                          unsent message ret' w v (OnSocket-trans w u v s.on_socket s'.on_socket)
                            (ground arith);
                      answered = λ m q. cc;
                    })
                    (λ e'.
                      Returns-bind (Exchanged message response_size w)
                        (ReadDone env response_size v)
                        (streamsock_read env sock local response_size response_size local v) _
                        (streamsock_read-ReadDone env sock local response_size response_size local v
                          open_sock refl (omega arith) small' refl)
                        (λ r v' d.
                          let both : Sent message (pos 0) w v =
                            Sent-trans request query ret (pos 0) w u v s (ground arith)
                              (succeeded ret' query u v s' (ground arith)) in
                          response_read w v r v' num' both d)))))
    where
      request : List ℕ
      request = bytes 4 request_type

      message : List ℕ
      message = request ++ query

      succeeded :
          (ret : ℤ) (m : List ℕ) (u v : World H L)
          → Sent m ret u v
          → is_zero ret ≡ true
          → Sent m (pos 0) u v
      succeeded ret m u v s z = record { on_socket = s.on_socket; sent = λ y. s.sent z }

      response_read :
          (w v : World H L) (r : Received) (v' : World H L) (num : ℕ)
          → Sent message (pos 0) w v
          → ReadDone env response_size v r v'
          → Returns (Exchanged message response_size w) (
              (if nonzero r.err || not (stored r.num_bytes_read num == response_size)
                  then pure (r.err, none)
                  else pure (pos 0, some r.buf))
                v')
      response_read w v r v' num both d =
          if-Returns (Exchanged message response_size w)
            (nonzero r.err || not (stored r.num_bytes_read num == response_size)) _ _ v'
            (λ stop. record { sent = at r.err; answered = λ m q. cc })
            (λ whole. record {
              sent = at (pos 0);
              answered = λ m q. elim (Option-cases r.num_bytes_read) [
                | inl e ↦ ground (arith, d.failed e, errno_set v'.trace, whole)
                | inr (n, e) ↦ (refl, ground (arith, d.counted n e, whole, q))
              ];
            })
        where
          at : (a : ℤ) → Sent message a w v'
          at a = record {
            on_socket = OnSocket-trans w v v' both.on_socket d.on_socket;
            sent = λ z. d.silent sock ∙ both.sent refl;
          }
