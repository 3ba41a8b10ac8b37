-- ===== src/Client/Accept/Sockets.antt =====
-- The connections of the receiver in CinderUserspace/PowerArbiter/main.c.
use cinder_userspace.Base.{
  ℕ, zero, suc, ◌+◌, ◌≡◌, refl, true, List, [], ◌∷◌, ◌++◌, Option, some, arith, Bool-cases, inl,
  inr,
}
use cinder_userspace.Base.Int.{ℤ, pos, eq_ℤ, is_zero}
use cinder_userspace.Os.{Env, context_lock, mutex_lock, mutex_unlock, accept}
use cinder_userspace.Os.Ledger.{opened}
use cinder_userspace.Store.{if-Returns, World, Returns, Returns-bind, logged}
use cinder_userspace.Sock.{minus_one}
use cinder_userspace.Context.{PaContext}
use cinder_userspace.Client.{ClientData}
use cinder_userspace.Client.Accept.{handle_remote_client, receiver_thread_loop, with_client}

abbrev pub sockets : List ClientData → List ℤ
sockets [] = []
sockets (c ∷ clients) = c.client_sock ∷ sockets clients

module _ {H L : Type 0} (env : Env H L) where
  pub handle_remote_client-opened :
      (connsock : ℤ) (progctx : Option PaContext) (clients : List ClientData) (rest : List ℤ)
      (w : World H L)
      → opened w.trace ≡ connsock ∷ (sockets clients ++ rest)
      → Returns
          (λ a w'. opened w'.trace ≡ sockets (with_client env (a.1) clients) ++ rest)
          (handle_remote_client env connsock progctx w)
  unfolding handle_remote_client opened
  handle_remote_client-opened connsock progctx clients rest w held = ground arith

  module _ (contexts : ℕ → PaContext) (rest : List ℤ) where
    -- The receiver that finds the daemon inactive in the round that is `later` rounds away returns
    -- 0 within later + 1 rounds, and has closed every connection that it accepted but those of the
    -- clients whose threads it started: of the sockets open at its start, those of the clients
    -- counted then stay open with the rest.
    pub receiver_thread_loop-opened :
        (later n : ℕ) (clients : List ClientData) (w : World H L)
        → is_zero (contexts (n + later)).active ≡ true
        → opened w.trace ≡ sockets clients ++ rest
        → Returns
            (λ a w'. (a.0 ≡ pos 0) × (opened w'.trace ≡ sockets (a.1) ++ rest))
            (receiver_thread_loop env contexts (suc later) n clients w)
    unfolding receiver_thread_loop opened
    receiver_thread_loop-opened zero n clients w stop held =
        let here : is_zero (contexts n).active ≡ true =
          (let e : n + 0 ≡ n = omega arith in rw e at stop) in
        rw (here, Returns) (refl, held)
    receiver_thread_loop-opened (suc later) n clients w stop held =
        elim (Bool-cases (is_zero (contexts n).active)) [
          | inl e ↦ rw (e, Returns) (refl, held)
          | inr e ↦
              rw (e, Returns)
                (if-Returns (λ a w'. (a.0 ≡ pos 0) × (opened w'.trace ≡ sockets (a.1) ++ rest))
                  (eq_ℤ sock minus_one)
                  (receiver_thread_loop env contexts (suc later) (n + 1) clients) _ accepted
                  (λ failed.
                    receiver_thread_loop-opened later (n + 1) clients accepted next
                      (rw (failed, held)))
                  (λ connected.
                    Returns-bind (λ a w'. (a.0 ≡ pos 0) × (opened w'.trace ≡ sockets (a.1) ++ rest))
                      (λ a w'. opened w'.trace ≡ sockets (with_client env (a.1) clients) ++ rest)
                      (handle_remote_client env sock (some (contexts n)) accepted) _
                      (handle_remote_client-opened sock (some (contexts n)) clients rest accepted
                        (rw (connected, held)))
                      (λ a w' held'.
                        receiver_thread_loop-opened later (n + 1) (with_client env (a.1) clients) w'
                          next held')))
        ]
      where
        locked_world : World H L
        locked_world =
            logged w (mutex_lock context_lock) (env.result w.trace (mutex_lock context_lock))

        unlocked : World H L
        unlocked =
            logged locked_world (mutex_unlock context_lock)
              (env.result locked_world.trace (mutex_unlock context_lock))

        sock : ℤ
        sock = env.result unlocked.trace (accept (contexts n).listen_sock)

        accepted : World H L
        accepted = logged unlocked (accept (contexts n).listen_sock) sock

        next : is_zero (contexts (n + 1 + later)).active ≡ true
        next = let e : n + suc later ≡ n + 1 + later = omega arith in rw e at stop
