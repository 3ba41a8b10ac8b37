-- ===== src/Console/Requested.antt =====
-- The handlers of CinderUserspace/PAController/client.c, from their prompts to their return values.
use mathlib.Core.Option.{some-injective}
use cinder_userspace.Base.{
  ℕ, ◌^◌, ◌<◌, ◌≡◌, refl, ◌∙◌, sym, ap, true, false, List, ◌++◌, Option, none, some, arith, length,
  Option-cases, Bool-cases, inl, inr, ◌==◌,
}
use cinder_userspace.Base.Int.{ℤ, eq_ℤ, is_zero, einval}
use cinder_userspace.Base.Text.{word_64}
use cinder_userspace.Os.{Trace, Env}
use cinder_userspace.Os.Ledger.{delivered, opened}
use cinder_userspace.Store.{Cmd, ◌>>=◌, World, Returns, Returns-bind, Returns-mono}
use cinder_userspace.Sock.{minus_one}
use cinder_userspace.Sock.Calls.{opened-SocketCalls}
use cinder_userspace.Wire.{
  field, bytes, write_set_query, write_add_query, params_query_size, uid_query_size,
  stat_response_size, get_response_size, error_response_size,
}
use cinder_userspace.Wire.RoundTrip.{length-bytes, length_of_three}
use cinder_userspace.Context.{
  pa_no_error, pa_use_root_reserve, pa_reserve_granted, pa_stat_reserve, pa_get_tap_params,
  pa_set_tap_params, pa_add_uid_params, pa_remove_uid_params,
}
use cinder_userspace.Stdin.{Prompt}
use cinder_userspace.Console.{on_answer}
use cinder_userspace.Console.Prompts.{ask_uid, ask_params}
use cinder_userspace.Console.Requests.{
  has_flag, exchange, on_response, report_error, report_mapping, report_reserve,
  handle_add_reserve_mapping, handle_del_reserve_mapping, handle_get_reserve_mapping_data,
  handle_set_reserve_mapping_data, handle_connect_to_uid_reserve,
}
use cinder_userspace.Console.Sent.{Exchanged, exchange-Exchanged}

module _ {H L : Type 0} (env : Env H L) where
  -- No socket is made or closed, and nothing is sent.
  pub record Quiet (w w' : World H L) : Type 0 where
    pub opened : opened w'.trace ≡ opened w.trace
    pub silent : (sock : ℤ) → delivered sock w'.trace ≡ delivered sock w.trace

  pub report_error-Quiet :
      (m : List ℕ) (w : World H L) → Returns (λ a w'. Quiet w w') (report_error env m w)
  unfolding report_error opened delivered
  report_error-Quiet m w = record { opened = refl; silent = λ sock. refl }

  pub report_mapping-Quiet :
      (uid : ℕ) (m : List ℕ) (w : World H L)
      → Returns (λ a w'. Quiet w w') (report_mapping env uid m w)
  unfolding report_mapping opened delivered
  report_mapping-Quiet uid m w = elim (Bool-cases (field 16 4 m == pa_no_error)) [
    | inl e ↦ rw (e, Returns) (record { opened = refl; silent = λ sock. refl })
    | inr e ↦ rw (e, Returns) (record { opened = refl; silent = λ sock. refl })
  ]

  pub report_reserve-Quiet :
      (uid : ℕ) (m : List ℕ) (w : World H L)
      → Returns (λ a w'. Quiet w w') (report_reserve env uid m w)
  unfolding report_reserve opened delivered
  report_reserve-Quiet uid m w = elim (Bool-cases (field 8 4 m == pa_no_error)) [
    | inr e ↦ rw (e, Returns) (record { opened = refl; silent = λ sock. refl })
    | inl e ↦
        rw (e, Returns)
          (elim (Bool-cases (has_flag (field 4 4 m) pa_use_root_reserve)) [
            | inl f ↦ rw (f, Returns) (record { opened = refl; silent = λ sock. refl })
            | inr f ↦
                rw (f, Returns)
                  (elim (Bool-cases (has_flag (field 4 4 m) pa_reserve_granted)) [
                    | inl g ↦ rw (g, Returns) (record { opened = refl; silent = λ sock. refl })
                    | inr g ↦ rw (g, Returns) (record { opened = refl; silent = λ sock. refl })
                  ])
          ])
  ]

  -- A handler with its prompt and the message that it makes of the answer: it reads what the prompt
  -- reads. A refused answer makes no call and returns -EINVAL. Otherwise it returns 0 only if the
  -- message went over the socket.
  pub record Requested {A : Type 0} (sock : ℤ) (prompt : Prompt A) (message : A → List ℕ)
      (input : List ℕ) (w : World H L) (a : ℤ × List ℕ) (w' : World H L) : Type 0 where
    pub rest : a.1 ≡ (prompt input).1
    pub opened : opened w'.trace ≡ opened w.trace
    pub refused : (prompt input).0 ≡ none → (a.0 ≡ einval) × (w' ≡ w)
    pub sent :
        (x : A)
        → (prompt input).0 ≡ some x
        → is_zero (a.0) ≡ true
        → delivered sock w'.trace ≡ delivered sock w.trace ++ message x

  module _ (errno_set : (t : Trace) → is_zero (env.errno t) ≡ false) (sock : ℤ)
      (open_sock : eq_ℤ sock minus_one ≡ false) where
    Asked : (message : List ℕ) (w : World H L) (ret : ℤ) (w' : World H L) → Type 0
    Asked message w ret w' =
        (opened w'.trace ≡ opened w.trace)
        × (is_zero ret ≡ true → delivered sock w'.trace ≡ delivered sock w.trace ++ message)

    exchange-Asked :
        (request_type : ℕ) (query : List ℕ) (query_size response_size : ℕ)
        (finish : List ℕ → Cmd H L ℤ) (w : World H L)
        → query_size ≡ length query
        → query_size < 2 ^ 64
        → response_size < 2 ^ 64
        → ((m : List ℕ) (u : World H L) → Returns (λ a w'. Quiet u w') (finish m u))
        → Returns (Asked (bytes 4 request_type ++ query) w) (
            (exchange env sock request_type query query_size response_size
                >>= on_response env finish)
              w)
    unfolding Asked
    exchange-Asked request_type query query_size response_size finish w l small small' quiet =
        Returns-bind (Asked message w)
          (Exchanged env errno_set sock open_sock message response_size w)
          (exchange env sock request_type query query_size response_size w) _
          (exchange-Exchanged env errno_set sock open_sock request_type query query_size
            response_size w l small small')
          (λ (ret, response) u d. answered ret response u d)
      where
        message : List ℕ
        message = bytes 4 request_type ++ query

        answered :
            (ret : ℤ) (response : Option (List ℕ)) (u : World H L)
            → Exchanged env errno_set sock open_sock message response_size w (ret, response) u
            → Returns (Asked message w) (on_response env finish (ret, response) u)
        answered ret none u d = (opened-SocketCalls d.sent.on_socket.calls, λ z. d.sent.sent z)
        answered ret (some m) u d =
            Returns-mono (λ a w'. Quiet u w') (Asked message w) (finish m u) (quiet m u)
              (λ a w' q. (
                q.opened ∙ opened-SocketCalls d.sent.on_socket.calls,
                λ z. q.silent sock ∙ d.sent.sent (d.answered m refl).0,
              ))

    on_answer-Requested :
        {A : Type 0} (prompt : Prompt A) (calls : A → Cmd H L ℤ) (message : A → List ℕ)
        (input : List ℕ) (w : World H L)
        → ((x : A) → Returns (Asked (message x) w) (calls x w))
        → Returns (Requested sock prompt message input w) (on_answer prompt calls input w)
    unfolding Asked
    on_answer-Requested prompt calls message input w asked = elim (Option-cases (prompt input).0) [
      | inl e ↦
          rw (e, Returns)
            (record { rest = refl; opened = refl; refused = λ z. (refl, refl); sent = λ x z. cc })
      | inr (x, e) ↦
          rw (e, Returns)
            (Returns-bind (Requested sock prompt message input w) (Asked (message x) w) (calls x w)
              _ (asked x)
              (λ ret w' d. record {
                rest = refl;
                opened = d.0;
                refused = λ z. cc;
                sent = λ y z zero.
                    d.1 zero
                    ∙ ap (λ y. delivered sock w.trace ++ message y)
                        (some-injective x y (sym e ∙ z));
              }))
    ]

    module _ (input : List ℕ) (w : World H L) where
      handle_add-Requested :
          Returns
            (Requested sock ask_params
              (λ q. bytes 4 pa_add_uid_params ++ write_add_query q)
              input
              w)
            (handle_add_reserve_mapping env sock input w)
      unfolding handle_add_reserve_mapping write_add_query
      handle_add-Requested =
          on_answer-Requested ask_params _ (λ q. bytes 4 pa_add_uid_params ++ write_add_query q)
            input w
            (λ q.
              exchange-Asked pa_add_uid_params (write_add_query q) params_query_size
                error_response_size (report_error env) w
                (sym (length_of_three q.uid (word_64 q.tap_value) q.tap_type)) (omega arith)
                (omega arith) report_error-Quiet)

      handle_set-Requested :
          Returns
            (Requested sock ask_params
              (λ q. bytes 4 pa_set_tap_params ++ write_set_query q)
              input
              w)
            (handle_set_reserve_mapping_data env sock input w)
      unfolding handle_set_reserve_mapping_data write_set_query
      handle_set-Requested =
          on_answer-Requested ask_params _ (λ q. bytes 4 pa_set_tap_params ++ write_set_query q)
            input w
            (λ q.
              exchange-Asked pa_set_tap_params (write_set_query q) params_query_size
                error_response_size (report_error env) w
                (sym (length_of_three q.uid q.tap_type (word_64 q.tap_value))) (omega arith)
                (omega arith) report_error-Quiet)

      -- The three requests that send a uid alone.
      uid-Requested :
          (request_type response_size : ℕ) (finish : ℕ → List ℕ → Cmd H L ℤ)
          → response_size < 2 ^ 64
          → ((uid : ℕ) (m : List ℕ) (u : World H L) → Returns (λ a w'. Quiet u w') (finish uid m u))
          → Returns (Requested sock ask_uid (λ uid. bytes 4 request_type ++ bytes 8 uid) input w) (
              on_answer ask_uid
                (λ uid.
                  exchange env sock request_type (bytes 8 uid) uid_query_size response_size
                  >>= on_response env (finish uid))
                input
                w)
      uid-Requested request_type response_size finish small quiet =
          on_answer-Requested ask_uid _ (λ uid. bytes 4 request_type ++ bytes 8 uid) input w
            (λ uid.
              exchange-Asked request_type (bytes 8 uid) uid_query_size response_size (finish uid) w
                (sym (length-bytes 8 uid)) (omega arith) small (quiet uid))

      -- Each of the five handlers of the controller program, on any input, with an open socket and
      -- calls that set errno where they fail, ends with no fault. It reads the answers to its
      -- prompts and no more. A refused answer makes it return -EINVAL with no call made; otherwise
      -- it returns 0 only if the number of its request and the query of the answers went over the
      -- socket, whole and once.
      pub handlers-Requested :
          Returns
            (Requested sock ask_params
              (λ q. bytes 4 pa_add_uid_params ++ write_add_query q)
              input
              w)
            (handle_add_reserve_mapping env sock input w)
          × Returns
              (Requested sock ask_uid (λ uid. bytes 4 pa_remove_uid_params ++ bytes 8 uid) input w)
              (handle_del_reserve_mapping env sock input w)
          × Returns
              (Requested sock ask_uid (λ uid. bytes 4 pa_get_tap_params ++ bytes 8 uid) input w)
              (handle_get_reserve_mapping_data env sock input w)
          × Returns
              (Requested sock ask_params
                (λ q. bytes 4 pa_set_tap_params ++ write_set_query q)
                input
                w)
              (handle_set_reserve_mapping_data env sock input w)
          × Returns
              (Requested sock ask_uid (λ uid. bytes 4 pa_stat_reserve ++ bytes 8 uid) input w)
              (handle_connect_to_uid_reserve env sock input w)
      unfolding handle_del_reserve_mapping handle_get_reserve_mapping_data
          handle_connect_to_uid_reserve
      handlers-Requested = (
        handle_add-Requested,
        uid-Requested pa_remove_uid_params error_response_size (λ uid. report_error env)
            (omega arith) (λ uid. report_error-Quiet),
        uid-Requested pa_get_tap_params get_response_size (report_mapping env) (omega arith)
            report_mapping-Quiet,
        handle_set-Requested,
        uid-Requested pa_stat_reserve stat_response_size (report_reserve env) (omega arith)
            report_reserve-Quiet,
      )
