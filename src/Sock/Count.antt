-- ===== src/Sock/Count.antt =====
-- The bytes that streamsock_read of CinderUserspace/PowerArbiter/sock.c takes.
use cinder_userspace.Base.{
  ℕ, zero, suc, ◌+◌, ◌^◌, ◌≤◌, ◌<◌, ◌≡◌, refl, true, false, List, [], ◌++◌, some, arith, ◌==◌, ltb,
  ap, length, length-append, Bool-cases, inl, inr,
}
use cinder_userspace.Base.Int.{ℤ, pos, eq_ℤ, pos_part}
use cinder_userspace.Os.{Ptr, null, recv, Env}
use cinder_userspace.Os.Ledger.{bytes_received}
use cinder_userspace.Store.{World, Returns, Returns-mono, logged}
use cinder_userspace.Sock.{Received, minus_one, read_loop, streamsock_read}
use cinder_userspace.Sock.Read.{within_cases}

module _ {H L : Type 0} (env : Env H L) where
  -- The bytes taken are those that the buffer holds more.
  abbrev pub Counted : (buf : List ℕ) (w : World H L) → Received → World H L → Type 0
  Counted buf w r w' = bytes_received w'.trace + length buf ≡ bytes_received w.trace + length r.buf

  read_loop-count :
      (fuel : ℕ) (sock : ℤ) (to_read rcvd remaining : ℕ) (buf : List ℕ) (w : World H L)
      → remaining < fuel
      → rcvd + remaining ≡ to_read
      → to_read < 2 ^ 64
      → Returns (Counted buf w) (read_loop env fuel sock to_read rcvd remaining buf w)
  unfolding read_loop bytes_received
  read_loop-count zero sock to_read rcvd remaining buf w h s b = absurd (omega arith)
  read_loop-count (suc fuel) sock to_read rcvd remaining buf w h s b =
      elim (Bool-cases (ltb rcvd to_read)) [
        | inr done ↦ rw (done, Returns) refl
        | inl more ↦
            rw more
              (elim (within_cases (env.result w.trace (recv sock remaining)) remaining
                (env.recv_within w.trace sock remaining)) [
                  | inl bad ↦ rw (bad, Returns) (omega arith)
                  | inr (k, e, small) ↦
                      rw (e, Returns)
                        (elim (Bool-cases (k == 0)) [
                          | inl closed ↦ rw (closed, Returns) (ground arith)
                          | inr moved ↦
                              rw (moved, Returns)
                                (Returns-mono
                                  (Counted (buf ++ env.received w.trace sock remaining)
                                    (logged w (recv sock remaining) (pos k)))
                                  (Counted buf w) _
                                  (read_loop-count fuel sock to_read _ _ _
                                    (logged w (recv sock remaining) (pos k)) (ground arith)
                                    (ground arith) b)
                                  (λ r w' d. omega (
                                    arith,
                                    d,
                                    length-append buf (env.received w.trace sock remaining),
                                    ap pos_part e,
                                    env.length-received w.trace sock remaining,
                                  )))
                        ])
                ])
      ]

  pub streamsock_read-count :
      (sock : ℤ) (buf : Ptr) (bufsiz to_read : ℕ) (loc : Ptr) (w : World H L)
      → eq_ℤ sock minus_one ≡ false
      → (buf == null) ≡ false
      → to_read ≤ bufsiz
      → to_read < 2 ^ 64
      → (loc == null) ≡ false
      → Returns (Counted [] w) (streamsock_read env sock buf bufsiz to_read loc w)
  unfolding streamsock_read
  streamsock_read-count sock buf bufsiz to_read loc w g1 g2 fits small g3 =
      let room : ltb bufsiz to_read ≡ false = ground arith in
      rw (g1, g2, room, g3)
        (read_loop-count (to_read + 1) sock to_read 0 to_read [] w (omega arith) (omega arith)
          small)

  -- The peer has closed the connection.
  pub streamsock_read-closed :
      (sock : ℤ) (buf : Ptr) (bufsiz to_read : ℕ) (loc : Ptr) (w : World H L)
      → eq_ℤ sock minus_one ≡ false
      → (buf == null) ≡ false
      → to_read ≤ bufsiz
      → 0 < to_read
      → (loc == null) ≡ false
      → env.result w.trace (recv sock to_read) ≡ pos 0
      → Returns
          (λ r w'. (r.err ≡ pos 0) × (r.num_bytes_read ≡ some 0))
          (streamsock_read env sock buf bufsiz to_read loc w)
  unfolding streamsock_read read_loop
  streamsock_read-closed sock buf bufsiz to_read loc w g1 g2 fits some_bytes g3 closed =
      let room : ltb bufsiz to_read ≡ false = ground arith in
      let more : ltb 0 to_read ≡ true = ground arith in
      rw (g1, g2, room, g3)
        (let e : to_read + 1 ≡ suc to_read = omega arith in rw e (one_round to_read more closed))
    where
      one_round :
          (n : ℕ)
          → ltb 0 to_read ≡ true
          → env.result w.trace (recv sock to_read) ≡ pos 0
          → Returns
              (λ r w'. (r.err ≡ pos 0) × (r.num_bytes_read ≡ some 0))
              (read_loop env (suc n) sock to_read 0 to_read [] w)
      one_round n more closed = rw (more, closed, Returns) (refl, refl)
