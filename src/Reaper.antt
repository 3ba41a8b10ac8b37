-- ===== src/Reaper.antt =====
-- CinderUserspace/PowerArbiter/main.c: the thread that passes over the dead list once a second. The
-- other threads write the flags of the context: `contexts n` is the context as the reaper finds it
-- in its n-th round.
pub mod Shutdown
pub mod Quit
use cinder_userspace.Base.{ℕ, zero, suc, ◌+◌, if◌then◌else◌}
use cinder_userspace.Base.Int.{ℤ, pos, nonzero, is_zero}
use cinder_userspace.Os.{
  context_lock, mutex_lock, mutex_unlock, reaper_thread_exited, sem_post, sleep, Env,
}
use cinder_userspace.Store.{out_of_fuel, Cmd, pure, ◌>>=◌, ◌>>◌, perform, perform_}
use cinder_userspace.Record.{local, stored}
use cinder_userspace.Context.{PaContext, reserve_reaper_delay_seconds}
use cinder_userspace.Dbase.{clear_unused}

module _ {H L : Type 0} (env : Env H L) where
  -- The label `do_sleep`, and the next round.
  unfoldable pub do_sleep : Cmd H L ℤ → Cmd H L ℤ
  do_sleep next = do perform_ env (sleep reserve_reaper_delay_seconds); next

  -- Behind the loop.
  unfoldable pub quit : Cmd H L ℤ
  quit = do perform_ env (sem_post reaper_thread_exited); pure (pos 0)

  -- `n` is the number of the round, and `is_empty` what the pass before it stored.
  unfoldable pub reaper_thread_loop :
      (contexts : ℕ → PaContext) (fuel n : ℕ) (is_empty : ℤ) → Cmd H L ℤ
  unfolding do_sleep quit
  reaper_thread_loop contexts zero n is_empty = λ w. out_of_fuel
  reaper_thread_loop contexts (suc fuel) n is_empty = do
    err ← perform env (mutex_lock context_lock)
    if nonzero err then pure err else do
      perform_ env (mutex_unlock context_lock)
      (err, out) ← clear_unused env (contexts n).dbase local
      if is_zero (contexts n).reaper_should_exit
          then do_sleep (reaper_thread_loop contexts fuel (n + 1) (stored out is_empty))
          else if nonzero err
          then quit
          else if nonzero (stored out is_empty)
          then quit
          else do_sleep (reaper_thread_loop contexts fuel (n + 1) (stored out is_empty))
