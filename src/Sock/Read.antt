-- ===== src/Sock/Read.antt =====
-- streamsock_read of CinderUserspace/PowerArbiter/sock.c.
use cinder_userspace.Base.{
  ℕ, zero, suc, ◌+◌, ◌^◌, ◌≤◌, ◌<◌, ◌≡◌, refl, true, false, Bool, ◌||◌, List, [], ◌∷◌, none, some,
  arith, ◌==◌, ltb, ◌⊎◌, ap, length, length-append, Bool-cases, inl, inr,
}
use cinder_userspace.Base.Int.{ℤ, pos, negsuc, eq_ℤ, is_zero, pos_part}
use cinder_userspace.Os.{Ptr, null, Call, Trace, recv, within, Env}
use cinder_userspace.Os.Ledger.{delivered}
use cinder_userspace.Store.{World, Returns, Returns-mono, logged}
use cinder_userspace.Sock.{Received, minus_one, read_loop, streamsock_read}
use cinder_userspace.Sock.Calls.{none_yet, one_more, OnSocket, OnSocket-trans}

-- The two ways in which a `recv` of at most `n` bytes ends.
pub within_cases :
    (r : ℤ) (n : ℕ) → within r n ≡ true → (r ≡ minus_one) ⊎ ((k : ℕ) × (r ≡ pos k) × (k ≤ n))
within_cases (pos k) n h = inr (k, refl, ground arith)
within_cases (negsuc k) n h = inl (ground arith)

abbrev pub is_shutdown : Call → ℤ → Bool
is_shutdown (recv sock n) r = is_zero r
is_shutdown _ r = false

-- Was the last call a `recv` that found an orderly shutdown?
abbrev pub peer_closed : Trace → Bool
peer_closed [] = false
peer_closed (e ∷ t) = is_shutdown e.call e.ret

module _ {H L : Type 0} (env : Env H L) where
  pub record ReadDone (to_read : ℕ) (w : World H L) (r : Received) (w' : World H L) : Type 0 where
    pub on_socket : OnSocket w w'
    pub counted :
        (n : ℕ) → r.num_bytes_read ≡ some n → (r.err ≡ pos 0) × (length r.buf ≡ n) × (n ≤ to_read)
    pub whole : (n : ℕ) → r.num_bytes_read ≡ some n → (n == to_read) || peer_closed w'.trace ≡ true
    pub failed : r.num_bytes_read ≡ none → r.err ≡ env.errno w'.trace
    pub silent : (s : ℤ) → delivered s w'.trace ≡ delivered s w.trace

  OnSocket-recv : (w : World H L) (sock : ℤ) (n : ℕ) (a : ℤ) → OnSocket w (logged w (recv sock n) a)
  OnSocket-recv w sock n a = record {
    active = refl;
    dead_list = refl;
    heap = refl;
    calls = one_more _ refl none_yet;
  }

  -- One more round in front.
  ReadDone-recv :
      (to_read : ℕ) (w : World H L) (sock : ℤ) (n : ℕ) (a : ℤ) (r : Received) (w' : World H L)
      → ReadDone to_read (logged w (recv sock n) a) r w'
      → ReadDone to_read w r w'
  unfolding delivered
  ReadDone-recv to_read w sock n a r w' d = record {
    on_socket =
        OnSocket-trans w (logged w (recv sock n) a) w' (OnSocket-recv w sock n a) d.on_socket;
    counted = d.counted;
    whole = d.whole;
    failed = d.failed;
    silent = d.silent;
  }

  read_loop-ReadDone :
      (fuel : ℕ) (sock : ℤ) (to_read rcvd remaining : ℕ) (buf : List ℕ) (w : World H L)
      → remaining < fuel
      → rcvd + remaining ≡ to_read
      → to_read < 2 ^ 64
      → length buf ≡ rcvd
      → Returns (ReadDone to_read w) (read_loop env fuel sock to_read rcvd remaining buf w)
  unfolding read_loop delivered
  read_loop-ReadDone zero sock to_read rcvd remaining buf w h s b l = absurd (omega arith)
  read_loop-ReadDone (suc fuel) sock to_read rcvd remaining buf w h s b l =
      elim (Bool-cases (ltb rcvd to_read)) [
        | inr done ↦ rw done (record {
          on_socket = record { active = refl; dead_list = refl; heap = refl; calls = none_yet };
          counted = λ n e. ground arith;
          whole = λ n e. ground arith;
          failed = λ e. cc;
          silent = λ s. refl;
        })
        | inl more ↦
            rw more
              (elim (within_cases (env.result w.trace (recv sock remaining)) remaining
                (env.recv_within w.trace sock remaining)) [
                  | inl bad ↦
                      rw (bad, Returns)
                        (record {
                          on_socket = OnSocket-recv w sock remaining minus_one;
                          counted = λ n e. cc;
                          whole = λ n e. cc;
                          failed = λ e. refl;
                          silent = λ s. refl;
                        })
                  | inr (k, e, small) ↦
                      rw (e, Returns)
                        (elim (Bool-cases (k == 0)) [
                          | inl closed ↦
                              rw (closed, Returns)
                                (record {
                                  on_socket = OnSocket-recv w sock remaining (pos k);
                                  counted = λ n q. ground arith;
                                  whole = λ n q. ground (arith, closed);
                                  failed = λ q. cc;
                                  silent = λ s. refl;
                                })
                          | inr moved ↦
                              rw (moved, Returns)
                                (Returns-mono
                                  (ReadDone to_read (logged w (recv sock remaining) (pos k))) _ _
                                  (read_loop-ReadDone fuel sock to_read _ _ _
                                    (logged w (recv sock remaining) (pos k)) (ground arith)
                                    (ground arith) b
                                    (omega (
                                      arith,
                                      length-append buf (env.received w.trace sock remaining),
                                      ap pos_part e,
                                      env.length-received w.trace sock remaining,
                                    )))
                                  (λ r w' d. ReadDone-recv to_read w sock remaining (pos k) r w' d))
                        ])
                ])
      ]

  -- streamsock_read of at most 2^64 - 1 bytes on an open socket into a buffer that holds them
  -- returns. Where it succeeds, it has read as many bytes as it says, no more than asked for;
  -- otherwise it returns errno. It sends nothing, and the shared state does not change.
  pub streamsock_read-ReadDone :
      (sock : ℤ) (buf : Ptr) (bufsiz to_read : ℕ) (loc : Ptr) (w : World H L)
      → eq_ℤ sock minus_one ≡ false
      → (buf == null) ≡ false
      → to_read ≤ bufsiz
      → to_read < 2 ^ 64
      → (loc == null) ≡ false
      → Returns (ReadDone to_read w) (streamsock_read env sock buf bufsiz to_read loc w)
  unfolding streamsock_read
  streamsock_read-ReadDone sock buf bufsiz to_read loc w g1 g2 fits small g3 =
      let room : ltb bufsiz to_read ≡ false = ground arith in
      rw (g1, g2, room, g3)
        (read_loop-ReadDone (to_read + 1) sock to_read 0 to_read [] w (omega arith) (omega arith)
          small refl)
