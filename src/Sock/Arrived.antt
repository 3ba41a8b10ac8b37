-- ===== src/Sock/Arrived.antt =====
-- What streamsock_read of CinderUserspace/PowerArbiter/sock.c leaves in its buffer.
use mathlib.Core.List.{append_assoc, append-nil}
use cinder_userspace.Base.{
  ℕ, zero, suc, ◌+◌, ◌^◌, ◌≤◌, ◌<◌, ◌≡◌, ◌∙◌, ap, sym, true, false, List, [], ◌∷◌, ◌++◌, arith,
  ◌==◌, ltb, Bool-cases, inl, inr, if◌then◌else◌,
}
use cinder_userspace.Base.Int.{ℤ, pos, eq_ℤ, is_pos}
use cinder_userspace.Os.{Ptr, null, Call, recv, Trace, Env}
use cinder_userspace.Store.{World, Returns, Returns-and, logged}
use cinder_userspace.Sock.{minus_one, read_loop, streamsock_read}
use cinder_userspace.Sock.Read.{within_cases, ReadDone, streamsock_read-ReadDone}

module _ {H L : Type 0} (env : Env H L) where
  abbrev pub arrived_after : Trace → Call → ℤ → List ℕ → List ℕ
  arrived_after t (recv sock n) r before =
      if is_pos r then before ++ env.received t sock n else before
  arrived_after t _ r before = before

  -- The bytes that the calls of `recv` wrote, in order.
  unfoldable pub arrived : Trace → List ℕ
  arrived [] = []
  arrived (e ∷ t) = arrived_after t e.call e.ret (arrived t)

  read_loop-arrived :
      (fuel : ℕ) (sock : ℤ) (to_read rcvd remaining : ℕ) (before buf : List ℕ) (w : World H L)
      → remaining < fuel
      → rcvd + remaining ≡ to_read
      → to_read < 2 ^ 64
      → arrived w.trace ≡ before ++ buf
      → Returns
          (λ r w'. arrived w'.trace ≡ before ++ r.buf)
          (read_loop env fuel sock to_read rcvd remaining buf w)
  unfolding read_loop arrived
  read_loop-arrived zero sock to_read rcvd remaining before buf w h s b same = absurd (omega arith)
  read_loop-arrived (suc fuel) sock to_read rcvd remaining before buf w h s b same =
      elim (Bool-cases (ltb rcvd to_read)) [
        | inr done ↦ rw (done, Returns) same
        | inl more ↦
            rw more
              (elim (within_cases (env.result w.trace (recv sock remaining)) remaining
                (env.recv_within w.trace sock remaining)) [
                  | inl bad ↦ rw (bad, Returns) same
                  | inr (k, e, small) ↦
                      rw (e, Returns)
                        (elim (Bool-cases (k == 0)) [
                          | inl closed ↦
                              rw (closed, Returns)
                                (let none_more : is_pos (pos k) ≡ false = ground (arith, closed) in
                                  rw none_more same)
                          | inr moved ↦
                              rw (moved, Returns)
                                (read_loop-arrived fuel sock to_read _ _ before
                                  (buf ++ env.received w.trace sock remaining)
                                  (logged w (recv sock remaining) (pos k)) (ground arith)
                                  (ground arith) b
                                  (let more : is_pos (pos k) ≡ true = ground (arith, moved) in
                                    rw more (
                                      ap (λ l. l ++ env.received w.trace sock remaining) same
                                      ∙ append_assoc before buf _)))
                        ])
                ])
      ]

  -- streamsock_read of at most 2^64 - 1 bytes on an open socket into a buffer that holds them
  -- returns. Its buffer holds just the bytes that its calls of recv wrote, in order. Where it
  -- succeeds, it says how many they are, no more than asked for, and as many as asked for unless
  -- its last recv found an orderly shutdown; otherwise it returns errno. It sends nothing, and the
  -- shared state does not change.
  pub streamsock_read-arrived :
      (sock : ℤ) (buf : Ptr) (bufsiz to_read : ℕ) (loc : Ptr) (w : World H L)
      → eq_ℤ sock minus_one ≡ false
      → (buf == null) ≡ false
      → to_read ≤ bufsiz
      → to_read < 2 ^ 64
      → (loc == null) ≡ false
      → Returns
          (λ r w'. ReadDone env to_read w r w' × (arrived w'.trace ≡ arrived w.trace ++ r.buf))
          (streamsock_read env sock buf bufsiz to_read loc w)
  unfolding streamsock_read
  streamsock_read-arrived sock buf bufsiz to_read loc w g1 g2 fits small g3 =
      Returns-and (ReadDone env to_read w) (λ r w'. arrived w'.trace ≡ arrived w.trace ++ r.buf) _
        (streamsock_read-ReadDone env sock buf bufsiz to_read loc w g1 g2 fits small g3) held
    where
      held :
          Returns
            (λ r w'. arrived w'.trace ≡ arrived w.trace ++ r.buf)
            (streamsock_read env sock buf bufsiz to_read loc w)
      held =
          let room : ltb bufsiz to_read ≡ false = ground arith in
          rw (g1, g2, room, g3)
            (read_loop-arrived (to_read + 1) sock to_read 0 to_read (arrived w.trace) [] w
              (omega arith) (omega arith) small (sym (append-nil (arrived w.trace))))
