-- ===== src/Sock/Send.antt =====
-- streamsock_send of CinderUserspace/PowerArbiter/sock.c.
use mathlib.Core.List.{append_assoc, append-nil}
use cinder_userspace.Base.{
  ℕ, zero, suc, ◌+◌, ◌-◌, ◌%◌, ◌^◌, ◌<◌, ◌≡◌, refl, sym, ◌∙◌, true, false, List, ◌++◌, Option, none,
  some, arith, ◌==◌, ltb, length, take, drop, take-append-drop, take_all, drop_all, drop-drop,
  length-drop, Bool-cases, inl, inr,
}
use cinder_userspace.Base.Int.{ℤ, pos, eq_ℤ, pos_part}
use cinder_userspace.Os.{Ptr, null, send, Env}
use cinder_userspace.Os.Ledger.{delivered, bytes_received}
use cinder_userspace.Store.{World, Returns, Returns-mono, logged}
use cinder_userspace.Sock.{minus_one, send_loop, streamsock_send}
use cinder_userspace.Sock.Read.{within_cases}
use cinder_userspace.Sock.Calls.{none_yet, one_more, OnSocket, OnSocket-trans}

module _ {H L : Type 0} (env : Env H L) (sock : ℤ) where
  -- `message` is what is to be delivered.
  pub record SendDone (message : List ℕ) (n : ℕ) (w : World H L) (a : ℤ × Option ℕ) (w' : World H L)
      : Type 0 where
    pub on_socket : OnSocket w w'
    pub sent :
        (k : ℕ)
        → a.1 ≡ some k
        → (a.0 ≡ pos 0) × (k ≡ n) × (delivered sock w'.trace ≡ delivered sock w.trace ++ message)
    pub failed : a.1 ≡ none → a.0 ≡ env.errno w'.trace
    pub deaf : bytes_received w'.trace ≡ bytes_received w.trace

  OnSocket-send :
      (w : World H L) (bytes : List ℕ) (a : ℤ) → OnSocket w (logged w (send sock bytes) a)
  OnSocket-send w bytes a = record {
    active = refl;
    dead_list = refl;
    heap = refl;
    calls = one_more _ refl none_yet;
  }

  eq_ℤ_self : (a : ℤ) → eq_ℤ a a ≡ true
  eq_ℤ_self a = ground arith

  delivered-send :
      (w : World H L) (bytes : List ℕ) (a : ℤ)
      → delivered sock (logged w (send sock bytes) a).trace
        ≡ delivered sock w.trace ++ take (pos_part a) bytes
  unfolding delivered
  delivered-send w bytes a = rw (eq_ℤ_self sock)

  -- One more round in front, which sent `k` bytes.
  SendDone-send :
      (n k : ℕ) (rest : List ℕ) (w : World H L) (a : ℤ × Option ℕ) (w' : World H L)
      → SendDone (drop k rest) n (logged w (send sock rest) (pos k)) a w'
      → SendDone rest n w a w'
  unfolding bytes_received
  SendDone-send n k rest w a w' d = record {
    on_socket =
        OnSocket-trans w (logged w (send sock rest) (pos k)) w' (OnSocket-send w rest (pos k))
          d.on_socket;
    sent = λ j e. ((d.sent j e).0, (d.sent j e).1, (d.sent j e).2 ∙ whole);
    failed = d.failed;
    deaf = d.deaf;
  }
    where
      whole :
          delivered sock (logged w (send sock rest) (pos k)).trace ++ drop k rest
          ≡ delivered sock w.trace ++ rest
      whole = rw (delivered-send w rest (pos k), append_assoc, take-append-drop k rest)

  send_loop-SendDone :
      (fuel : ℕ) (buf : List ℕ) (to_send sent remaining : ℕ) (w : World H L)
      → remaining < fuel
      → sent + remaining ≡ to_send
      → to_send ≡ length buf
      → to_send < 2 ^ 64
      → Returns
          (SendDone (drop sent buf) to_send w)
          (send_loop env fuel sock buf to_send sent remaining w)
  unfolding send_loop bytes_received
  send_loop-SendDone zero buf to_send sent remaining w h s l b = absurd (omega arith)
  send_loop-SendDone (suc fuel) buf to_send sent remaining w h s l b =
      elim (Bool-cases (ltb sent to_send)) [
        | inr done ↦
            rw (done, drop_all sent buf (ground arith))
              (record {
                on_socket = record {
                  active = refl;
                  dead_list = refl;
                  heap = refl;
                  calls = none_yet;
                };
                sent = λ k e. (refl, ground arith, sym (append-nil (delivered sock w.trace)));
                failed = λ e. cc;
                deaf = refl;
              })
        | inl more ↦
            rw (more, take_all remaining (drop sent buf) (omega (arith, length-drop sent buf)))
              (elim (within_cases (env.result w.trace (send sock (drop sent buf)))
                (length (drop sent buf)) (env.send_within w.trace sock (drop sent buf))) [
                  | inl bad ↦
                      rw (bad, Returns)
                        (record {
                          on_socket = OnSocket-send w (drop sent buf) minus_one;
                          sent = λ k e. cc;
                          failed = λ e. refl;
                          deaf = refl;
                        })
                  | inr (k, e, small) ↦
                      let progress : 0 < k = ground (
                        arith,
                        env.send_progress w.trace sock (drop sent buf),
                        length-drop sent buf,
                      ) in
                      let sent' : (sent + k % 2 ^ 64) % 2 ^ 64 ≡ sent + k =
                        omega (arith, length-drop sent buf) in
                      let left : (remaining + 2 ^ 64 - k % 2 ^ 64) % 2 ^ 64 ≡ remaining - k =
                        omega (arith, length-drop sent buf) in
                      rw (e, Returns)
                        (rw (sent', left)
                          (Returns-mono
                            (SendDone (drop (sent + k) buf) to_send
                              (logged w (send sock (drop sent buf)) (pos k)))
                            _ _
                            (send_loop-SendDone fuel buf to_send (sent + k) (remaining - k)
                              (logged w (send sock (drop sent buf)) (pos k))
                              (omega (arith, length-drop sent buf))
                              (omega (arith, length-drop sent buf)) l b)
                            (λ a w' d.
                              SendDone-send to_send k (drop sent buf) w a w'
                                (rw (drop-drop k sent buf) d))))
                ])
      ]

  -- streamsock_send of a buffer below 2^64 bytes on an open socket returns. Where it succeeds, it
  -- has sent the buffer whole, once and in order; otherwise it returns errno. It receives nothing,
  -- and the shared state does not change.
  pub streamsock_send-SendDone :
      (address : Ptr) (buf : List ℕ) (to_send : ℕ) (loc : Ptr) (w : World H L)
      → eq_ℤ sock minus_one ≡ false
      → (address == null) ≡ false
      → (loc == null) ≡ false
      → to_send ≡ length buf
      → to_send < 2 ^ 64
      → Returns (SendDone buf to_send w) (streamsock_send env sock address buf to_send loc w)
  unfolding streamsock_send
  streamsock_send-SendDone address buf to_send loc w g1 g2 g3 l small =
      rw (g1, g2, g3)
        (send_loop-SendDone (to_send + 1) buf to_send 0 to_send w (omega arith) (omega arith) l
          small)
