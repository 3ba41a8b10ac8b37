-- ===== src/Stop.antt =====
-- powerArbiterDestroy of CinderUserspace/PowerArbiter/init.c. A function that stores to the context
-- returns the context behind the error. The wait for the reaper is modelled as a call that leaves
-- the table and the dead list alone, and ends only where the reaper was signalled.
pub mod Empty
use cinder_userspace.Base.{ℕ, zero, suc, ◌&&◌, Option, none, some, if◌then◌else◌}
use cinder_userspace.Base.Int.{ℤ, pos, nonzero, is_zero, eq_ℤ, einval}
use cinder_userspace.Os.{
  Ptr, context_lock, mutex_lock, mutex_unlock, mutex_destroy, free, reaper_thread_exited, sem_wait,
  sem_destroy, Env,
}
use cinder_userspace.Store.{out_of_fuel, Cmd, pure, ◌>>=◌, ◌>>◌, gets, perform, perform_}
use cinder_userspace.Context.{PaContext}
use cinder_userspace.Dbase.{empty, destroy}
use cinder_userspace.Sock.{minus_one}
use cinder_userspace.Sock.Listen.{dispose_listening_ud_sock}
use cinder_userspace.Init.{power_arbiter_sockpath}

-- EINTR
abbrev pub eintr : ℤ
eintr = pos 4

module _ {H L : Type 0} (env : Env H L) where
  -- `users n` is num_users as the n-th round finds it.
  unfoldable pub wait_for_client_exit : (users : ℕ → ℤ) (fuel n : ℕ) → Cmd H L ℤ
  wait_for_client_exit users zero n = λ w. out_of_fuel
  wait_for_client_exit users (suc fuel) n = do
    err ← perform env (mutex_lock context_lock)
    if nonzero err then pure err else do
      perform_ env (mutex_unlock context_lock)
      if is_zero (users n) then pure (pos 0) else wait_for_client_exit users fuel (suc n)

  unfoldable pub signal_reaper_exit : PaContext → Cmd H L (ℤ × PaContext)
  signal_reaper_exit progctx = do
    err ← perform env (mutex_lock context_lock)
    if nonzero err then pure (err, progctx) else do
      perform_ env (mutex_unlock context_lock)
      pure (pos 0, record progctx { reaper_should_exit = pos 1 })

  unfoldable pub signal_arbiter_inactive : PaContext → Cmd H L (ℤ × PaContext)
  signal_arbiter_inactive progctx = do
    err ← perform env (mutex_lock context_lock)
    if nonzero err then pure (err, progctx) else do
      perform_ env (mutex_unlock context_lock)
      pure (pos 0, record progctx { active = pos 0 })

  -- A wait that a signal interrupts is made again.
  wait_posted : (fuel : ℕ) → Cmd H L ℤ
  wait_posted zero = λ w. out_of_fuel
  wait_posted (suc fuel) = do
    ret ← perform env (sem_wait reaper_thread_exited)
    errno ← gets (λ w. env.errno w.trace)
    if eq_ℤ ret minus_one && eq_ℤ errno eintr
        then wait_posted fuel
        else if eq_ℤ ret minus_one
        then pure errno
        else pure (pos 0)

  -- The semaphore starts at 0, and the reaper posts it only where it finds reaper_should_exit set
  -- (Reaper): where the flag is not set, the wait does not end.
  unfoldable pub wait_reaper_thread_quit : (fuel : ℕ) → PaContext → Cmd H L ℤ
  unfolding wait_posted
  wait_reaper_thread_quit fuel progctx =
      if is_zero progctx.reaper_should_exit then (λ w. out_of_fuel) else wait_posted fuel

  -- From the wait for the clients on.
  unfoldable pub destroy_database : (fuel : ℕ) → PaContext → Cmd H L (ℤ × PaContext)
  unfolding wait_for_client_exit empty signal_reaper_exit wait_reaper_thread_quit destroy
  destroy_database fuel progctx = do
    err ← wait_for_client_exit (λ n. progctx.num_users) fuel 0
    if nonzero err then pure (err, progctx) else do
      err ← empty env progctx.dbase
      if nonzero err then pure (err, progctx) else do
        (err, progctx) ← signal_reaper_exit progctx
        if nonzero err then pure (err, progctx) else do
          err ← wait_reaper_thread_quit fuel progctx
          if nonzero err then pure (err, progctx) else do
            err ← destroy env progctx.dbase
            if nonzero err then pure (err, progctx) else do
              perform_ env (mutex_destroy context_lock)
              perform_ env (sem_destroy reaper_thread_exited)
              perform_ env (free progctx.address)
              pure (pos 0, progctx)

  -- The error, and the context as the last step left it.
  unfoldable pub power_arbiter_destroy :
      (fuel : ℕ) → Option PaContext → Cmd H L (ℤ × Option PaContext)
  unfolding signal_arbiter_inactive dispose_listening_ud_sock destroy_database
  power_arbiter_destroy fuel none = pure (einval, none)
  power_arbiter_destroy fuel (some progctx) = do
    (err, progctx) ← signal_arbiter_inactive progctx
    if nonzero err then pure (err, some progctx) else do
      err ← dispose_listening_ud_sock env progctx.listen_sock (some power_arbiter_sockpath)
      if nonzero err
          then pure (err, some progctx)
          else do (err, progctx) ← destroy_database fuel progctx; pure (err, some progctx)
