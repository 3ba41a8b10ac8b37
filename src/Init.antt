-- ===== src/Init.antt =====
-- powerArbiterInitialize of CinderUserspace/PowerArbiter/init.c. The fields of the context that it
-- stores one by one stand in the record that is its result.
pub mod Started
pub mod Vacant
use cinder_userspace.Base.{ℕ, List, Option, none, some, ◌==◌, if◌then◌else◌}
use cinder_userspace.Base.Int.{ℤ, pos, pos_part, nonzero, einval, enomem}
use cinder_userspace.Base.Text.{codes}
use cinder_userspace.Os.{
  Ptr, null, context_lock, mutex_init, mutex_destroy, malloc, free, reaper_thread_exited, sem_init,
  sem_destroy, Env,
}
use cinder_userspace.Store.{Cmd, pure, ◌>>=◌, ◌>>◌, gets, perform, perform_}
use cinder_userspace.Record.{local, stored}
use cinder_userspace.Context.{PaContext}
use cinder_userspace.Dbase.{create_empty, destroy}
use cinder_userspace.Sock.{minus_one}
use cinder_userspace.Sock.Listen.{create_listening_ud_sock}

abbrev pub power_arbiter_sockpath : List ℕ
power_arbiter_sockpath = codes "/data/power_arbiter"

abbrev pub default_listen_backlog : ℕ
default_listen_backlog = 5

module _ {H L : Type 0} (env : Env H L) where
  -- The label `free_ctx`.
  unfoldable pub free_ctx : (progctx : Ptr) (err : ℤ) → Cmd H L (ℤ × Option PaContext)
  free_ctx progctx err = do perform_ env (free progctx); pure (err, none)

  -- The label `free_mutex`.
  unfoldable pub free_mutex : (progctx : Ptr) (err : ℤ) → Cmd H L (ℤ × Option PaContext)
  unfolding free_ctx
  free_mutex progctx err = do perform_ env (mutex_destroy context_lock); free_ctx progctx err

  -- The label `free_db`.
  unfoldable pub free_db : (progctx dbase : Ptr) (err : ℤ) → Cmd H L (ℤ × Option PaContext)
  unfolding free_mutex destroy
  free_db progctx dbase err = do _ ← destroy env dbase; free_mutex progctx err

  -- From the creation of the semaphore on.
  unfoldable pub initialize_semaphore : (progctx dbase : Ptr) → Cmd H L (ℤ × Option PaContext)
  unfolding free_db create_listening_ud_sock
  initialize_semaphore progctx dbase = do
    err ← perform env (sem_init reaper_thread_exited)
    if nonzero err then (do err ← gets (λ w. env.errno w.trace); free_db progctx dbase err) else do
      (err, sock) ←
          create_listening_ud_sock env (some power_arbiter_sockpath) default_listen_backlog local
      if nonzero err
          then (do perform_ env (sem_destroy reaper_thread_exited); free_db progctx dbase err)
          else pure (
            pos 0,
            some (record {
              active = pos 1;
              num_users = pos 0;
              reaper_should_exit = pos 0;
              receiver_should_exit = pos 0;
              dbase = dbase;
              listen_sock = stored sock minus_one;
              address = progctx;
            }),
          )

  -- The error, and the context that is stored at `progctx_loc`.
  unfoldable pub power_arbiter_initialize : (progctx_loc : Ptr) → Cmd H L (ℤ × Option PaContext)
  unfolding initialize_semaphore create_empty
  power_arbiter_initialize progctx_loc = if progctx_loc == null then pure (einval, none) else do
    address ← perform env malloc
    let progctx = pos_part address
    if progctx == null then pure (enomem, none) else do
      err ← perform env (mutex_init context_lock)
      if nonzero err then free_ctx progctx err else do
        (err, dbase) ← create_empty env local
        if nonzero err
            then free_mutex progctx err
            else initialize_semaphore progctx (stored dbase null)
