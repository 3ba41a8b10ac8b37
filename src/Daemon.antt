-- ===== src/Daemon.antt =====
-- CinderUserspace/PowerArbiter/main.c: the start, the wait for SIGTERM and the end of the daemon.
-- `requests` are the requests of the clients and the passes of the reaper that the other threads make
-- until the signal comes, in their order; the bytes that they are sent in are left out.
pub mod Stops
use cinder_userspace.Base.{Option, none, some, List, [], ◌∷◌, ℕ, zero, suc, ◌&&◌, if◌then◌else◌}
use cinder_userspace.Base.Int.{ℤ, pos, nonzero, eq_ℤ}
use cinder_userspace.Os.{
  keep_running, sem_init, sem_wait, sem_post, sem_destroy, sigaction, pthread_create, Env,
}
use cinder_userspace.Store.{World, ok, out_of_fuel, Cmd, pure, ◌>>=◌, ◌>>◌, gets, perform, perform_}
use cinder_userspace.Record.{local}
use cinder_userspace.Context.{PaContext}
use cinder_userspace.History.{Request, run_request}
use cinder_userspace.Sock.{minus_one}
use cinder_userspace.Init.{power_arbiter_initialize}
use cinder_userspace.Stop.{eintr, power_arbiter_destroy}

-- EXIT_FAILURE
abbrev pub exit_failure : ℤ
exit_failure = pos 1

module _ {H L : Type 0} (env : Env H L) where
  -- A wait that another signal interrupts is made again.
  unfoldable pub wait_for_sigterm : (fuel : ℕ) → Cmd H L ℤ
  wait_for_sigterm zero = λ w. out_of_fuel
  wait_for_sigterm (suc fuel) = do
    ret ← perform env (sem_wait keep_running)
    errno ← gets (λ w. env.errno w.trace)
    if eq_ℤ ret minus_one && eq_ℤ errno eintr
        then wait_for_sigterm fuel
        else if eq_ℤ ret minus_one
        then pure errno
        else do perform_ env (sem_destroy keep_running); pure (pos 0)

  unfoldable pub sigterm_handler : Cmd H L (Unit {0})
  sigterm_handler = perform_ env (sem_post keep_running)

  unfoldable pub setup_sigterm_handler : Cmd H L ℤ
  setup_sigterm_handler = do
    ret ← perform env sigaction
    errno ← gets (λ w. env.errno w.trace)
    if eq_ℤ ret minus_one then pure errno else pure (pos 0)

  -- What the other threads do to the database.
  unfoldable pub run_requests : Option PaContext → List Request → Cmd H L (Unit {0})
  unfolding run_request
  run_requests none rs = pure tt
  run_requests (some c) [] = pure tt
  run_requests (some c) (r ∷ rs) = do _ ← run_request env c r; run_requests (some c) rs

  -- From the creation of the threads on.
  unfoldable pub run_threads :
      (requests : List Request) (fuel : ℕ) (progctx : Option PaContext) → Cmd H L ℤ
  unfolding wait_for_sigterm power_arbiter_destroy run_requests
  run_threads requests fuel progctx = do
    err ← perform env pthread_create
    if nonzero err then pure exit_failure else do
      err ← perform env pthread_create
      if nonzero err then pure exit_failure else do
        run_requests progctx requests
        err ← wait_for_sigterm fuel
        if nonzero err then pure exit_failure else do
          (err, progctx) ← power_arbiter_destroy env fuel progctx
          if nonzero err then pure exit_failure else pure (pos 0)

  -- The exit status.
  unfoldable pub main : (requests : List Request) (fuel : ℕ) → Cmd H L ℤ
  unfolding setup_sigterm_handler power_arbiter_initialize run_threads
  main requests fuel = do
    err ← perform env (sem_init keep_running)
    if nonzero err then pure exit_failure else do
      err ← setup_sigterm_handler
      if nonzero err then pure exit_failure else do
        (err, progctx) ← power_arbiter_initialize env local
        if nonzero err then pure exit_failure else run_threads requests fuel progctx
