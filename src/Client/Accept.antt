-- ===== src/Client/Accept.antt =====
-- The receiver thread of CinderUserspace/PowerArbiter/main.c, and handle_remote_client of
-- CinderUserspace/PowerArbiter/client.c, which starts a client's thread. The other threads write
-- the flags of the context: `contexts n` is the context as the receiver finds it in its n-th round.
pub mod Sockets
use cinder_userspace.Base.{ℕ, zero, suc, ◌+◌, List, ◌∷◌, Option, none, some, ◌==◌, if◌then◌else◌}
use cinder_userspace.Base.Int.{ℤ, pos, pos_part, is_zero, nonzero, eq_ℤ, enomem}
use cinder_userspace.Os.{
  null, context_lock, mutex_lock, mutex_unlock, accept, close, malloc, free, pthread_create, Env,
}
use cinder_userspace.Store.{out_of_fuel, Cmd, pure, ◌>>=◌, ◌>>◌, gets, perform, perform_}
use cinder_userspace.Record.{local, stored}
use cinder_userspace.Context.{PaContext}
use cinder_userspace.Sock.{minus_one}
use cinder_userspace.Sock.Listen.{get_peer_id}
use cinder_userspace.Client.{ClientData}

module _ {H L : Type 0} (env : Env H L) where
  -- The error, and what the thread that was started is given.
  unfoldable pub handle_remote_client :
      (connsock : ℤ) (progctx : Option PaContext) → Cmd H L (ℤ × Option ClientData)
  unfolding get_peer_id
  handle_remote_client connsock progctx = do
    (err, ids) ← get_peer_id env connsock local local local
    if nonzero err then (do perform_ env (close connsock); pure (err, none)) else do
      address ← perform env malloc
      if pos_part address == null
          then (do perform_ env (close connsock); pure (enomem, none))
          else do
            let (pid, uid, gid) = stored ids (pos 0, 0, 0)
            err ← perform env pthread_create
            if nonzero err
                then (do
                  perform_ env (close connsock)
                  perform_ env (free (pos_part address))
                  pure (err, none))
                else pure (
                  pos 0,
                  some (record {
                    client_sock = connsock;
                    uid = uid;
                    gid = gid;
                    pid = pid;
                    progctx = progctx;
                  }),
                )

  -- The clients whose threads were started, the newest first.
  abbrev pub with_client : Option ClientData → List ClientData → List ClientData
  with_client none clients = clients
  with_client (some c) clients = c ∷ clients

  -- `n` is the number of the round, `clients` those of the rounds before it.
  unfoldable pub receiver_thread_loop :
      (contexts : ℕ → PaContext) (fuel n : ℕ) (clients : List ClientData)
      → Cmd H L (ℤ × List ClientData)
  unfolding handle_remote_client
  receiver_thread_loop contexts zero n clients = λ w. out_of_fuel
  receiver_thread_loop contexts (suc fuel) n clients = do
    perform_ env (mutex_lock context_lock)
    perform_ env (mutex_unlock context_lock)
    if is_zero (contexts n).active then pure (pos 0, clients) else do
      connected_sock ← perform env (accept (contexts n).listen_sock)
      if eq_ℤ connected_sock minus_one
          then receiver_thread_loop contexts fuel (n + 1) clients
          else do
            (err, started) ← handle_remote_client connected_sock (some (contexts n))
            receiver_thread_loop contexts fuel (n + 1) (with_client started clients)
