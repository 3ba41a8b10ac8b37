-- ===== src/Console/Closed.antt =====
-- The sockets of CinderUserspace/PAController/main.c.
use cinder_userspace.Base.{
  ℕ, zero, suc, ◌+◌, ◌<◌, ◌≡◌, refl, ◌∙◌, sym, Bool, true, false, List, arith, length, Option-cases,
  Bool-cases, inl, inr, not, ◌&&◌, if◌then◌else◌,
}
use cinder_userspace.Base.Int.{ℤ, pos, eq_ℤ, is_zero, is_neg, nonzero}
use cinder_userspace.Base.Text.{word_64}
use cinder_userspace.Os.{Trace, Env, socket, connect}
use cinder_userspace.Os.Ledger.{opened}
use cinder_userspace.Store.{pure, World, Returns, Returns-bind, Returns-mono, if-Returns, logged}
use cinder_userspace.Sock.{minus_one}
use cinder_userspace.Sock.Calls.{opened-SocketCalls}
use cinder_userspace.Wire.{bytes, request_size}
use cinder_userspace.Wire.RoundTrip.{length-bytes}
use cinder_userspace.Context.{pa_goodbye}
use cinder_userspace.Stdin.{fgets, chomp}
use cinder_userspace.Stdin.Lines.{fgets_shorter}
use cinder_userspace.Console.Requests.{transmit, disconnect_from_server}
use cinder_userspace.Console.Sent.{Sent, transmit-Sent}
use cinder_userspace.Console.Commands.{
  sockpath, input_size, run_command, command_loop, connect_to_arbiter, main,
}
use cinder_userspace.Console.Ends.{Ends, run_command-Ends}

module _ {H L : Type 0} (env : Env H L) where
  -- Do `socket` and `connect` succeed?
  pub connects : World H L → Bool
  connects w =
      let sock = env.result w.trace socket in
      not (is_neg sock) && is_zero (env.result (logged w socket sock).trace (connect sock sockpath))

module _ {H L : Type 0} (env : Env H L)
    (errno_set : (t : Trace) → is_zero (env.errno t) ≡ false) where
  module _ (sock : ℤ) (open_sock : eq_ℤ sock minus_one ≡ false) where
    disconnect-opened :
        (w : World H L)
        → Returns (λ a w'. opened w'.trace ≡ opened w.trace) (disconnect_from_server env sock w)
    unfolding disconnect_from_server
    disconnect-opened w =
        Returns-bind (λ a w'. opened w'.trace ≡ opened w.trace)
          (λ (ret, stop, num) w'.
            Sent env errno_set sock open_sock goodbye ret w w' × (is_zero ret ≡ not stop))
          (transmit env sock goodbye request_size (word_64 (env.indeterminate w.trace 0)) w) _
          (transmit-Sent env errno_set sock open_sock goodbye request_size _ w
            (sym (length-bytes 4 pa_goodbye)) (omega arith))
          (λ (ret, stop, num) w' (s, z).
            if-Returns (λ a w'. opened w'.trace ≡ opened w.trace) stop (pure ret) (pure (pos 0)) w'
              (λ e. opened-SocketCalls s.on_socket.calls)
              (λ e. opened-SocketCalls s.on_socket.calls))
      where
        goodbye : List ℕ
        goodbye = bytes 4 pa_goodbye

    command_loop-opened :
        (fuel : ℕ) (stdin : List ℕ) (w : World H L)
        → length stdin < fuel
        → Returns (λ a w'. opened w'.trace ≡ opened w.trace) (command_loop env fuel sock stdin w)
    unfolding command_loop Ends
    command_loop-opened zero stdin w h = absurd (omega arith)
    command_loop-opened (suc fuel) stdin w h = elim (Option-cases (fgets input_size stdin).0) [
      | inl e ↦ rw (e, Returns) refl
      | inr (line, e) ↦
          rw (e, Returns)
            (Returns-bind (λ a w'. opened w'.trace ≡ opened w.trace)
              (Ends env (fgets input_size stdin).1 w)
              (run_command env sock (chomp line) (fgets input_size stdin).1 w) _
              (run_command-Ends env errno_set sock open_sock (chomp line) (fgets input_size stdin).1
                w)
              (λ (err, rest) u (shorter, same).
                if-Returns (λ a w'. opened w'.trace ≡ opened w.trace) (nonzero err) _
                  (command_loop env fuel sock rest) u
                  (λ bad.
                    Returns-bind (λ a w'. opened w'.trace ≡ opened w.trace)
                      (λ a w'. opened w'.trace ≡ opened u.trace) (disconnect_from_server env sock u)
                      _ (disconnect-opened u) (λ ret w' o. o ∙ same))
                  (λ good.
                    Returns-mono (λ a w'. opened w'.trace ≡ opened u.trace)
                      (λ a w'. opened w'.trace ≡ opened w.trace) (command_loop env fuel sock rest u)
                      (command_loop-opened fuel rest u (
                        omega
                          (arith, fgets_shorter input_size line stdin (omega arith) e, shorter)))
                      (λ a w' o. o ∙ same))))
    ]

  -- The controller program, on any input, with calls that set errno where they fail, ends: the
  -- rounds of its loop are enough. Where it connects to the daemon, its exit status is 0 and it has
  -- closed every socket that it opened; otherwise its exit status is 1.
  pub main-Closed :
      (stdin : List ℕ) (w : World H L)
      → Returns
          (λ status w'.
            (status ≡ (if connects env w then pos 0 else pos 1))
            × (connects env w ≡ true → opened w'.trace ≡ opened w.trace))
          (main env stdin w)
  unfolding main connect_to_arbiter connects opened
  main-Closed stdin w = elim (Bool-cases (is_neg sock)) [
    | inl e ↦
        let no : connects env w ≡ false = rw e in
        rw (e, errno_set made.trace, Returns, no) (refl, λ z. cc)
    | inr e ↦ elim (Bool-cases (is_zero (env.result made.trace (connect sock sockpath)))) [
      | inr f ↦
          let no : connects env w ≡ false = rw (e, f) in
          rw (e, f, errno_set tried.trace, Returns, no) (refl, λ z. cc)
      | inl f ↦
          let yes : connects env w ≡ true = rw (e, f) in
          rw (e, f, Returns)
            (Returns-bind Ended (λ a w'. opened w'.trace ≡ opened tried.trace)
              (command_loop env (length stdin + 1) sock stdin tried) _
              (command_loop-opened sock (valid e) (length stdin + 1) stdin tried (omega arith))
              (λ a w' o. rw yes (refl, λ z. rw (o, valid e, itself sock))))
    ]
  ]
    where
      Ended : ℤ → World H L → Type 0
      Ended status w' =
          (status ≡ (if connects env w then pos 0 else pos 1))
          × (connects env w ≡ true → opened w'.trace ≡ opened w.trace)

      sock : ℤ
      sock = env.result w.trace socket

      valid : is_neg sock ≡ false → eq_ℤ sock minus_one ≡ false
      valid e = ground (arith, e)

      itself : (a : ℤ) → eq_ℤ a a ≡ true
      itself a = ground arith

      made : World H L
      made = logged w socket sock

      tried : World H L
      tried = logged made (connect sock sockpath) (env.result made.trace (connect sock sockpath))
