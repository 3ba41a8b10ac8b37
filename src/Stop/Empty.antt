-- ===== src/Stop/Empty.antt =====
-- powerArbiterDestroy of CinderUserspace/PowerArbiter/init.c where the database is empty.
use cinder_userspace.Base.{◌≡◌, true, false, Bool, ltb, ◌||◌, ◌∷◌, [], ◌⊎◌, Option, some, ◌==◌}
use cinder_userspace.Base.Int.{ℤ, pos, eq_ℤ, is_zero}
use cinder_userspace.Os.{Call, null, reaper_thread_exited, sem_wait, Trace, Env}
use cinder_userspace.Os.Ledger.{opened, erase, failures}
use cinder_userspace.Store.{World, logged}
use cinder_userspace.Context.{PaContext}
use cinder_userspace.Sock.{minus_one}

-- The state behind a call.
abbrev step : {H L : Type 0} → Env H L → World H L → Call → World H L
step env w call = logged w call (env.result w.trace call)

abbrev pub is_failed_wait : Call → ℤ → Bool
is_failed_wait (sem_wait reaper_thread_exited) r = eq_ℤ r minus_one
is_failed_wait _ r = false

-- Was the last call a wait for the reaper that failed?
abbrev pub wait_failed : Trace → Bool
wait_failed [] = false
wait_failed (e ∷ t) = is_failed_wait e.call e.ret

module _ {H L : Type 0} (env : Env H L) where
  -- What a shutdown leaves: on a success the listening socket is closed, and the daemon and the
  -- reaper are told to end; on an error, of which there is none unless a call failed or the context
  -- has no database or no socket, no other socket is closed.
  pub record Destroyed (c : PaContext) (w : World H L) (a : ℤ × Option PaContext) (w' : World H L)
      : Type 0 where
    pub flags :
        is_zero (a.0) ≡ true → a.1 ≡ some (record c { active = pos 0; reaper_should_exit = pos 1 })
    pub closed : is_zero (a.0) ≡ true → opened w'.trace ≡ erase c.listen_sock (opened w.trace)
    pub succeeds :
        (is_zero (a.0)
          || (ltb (failures w.trace) (failures w'.trace)
              || ((c.dbase == null) || (eq_ℤ c.listen_sock minus_one || wait_failed w'.trace))))
        ≡ true
    pub kept :
        (opened w'.trace ≡ opened w.trace)
        ⊎ (opened w'.trace ≡ erase c.listen_sock (opened w.trace))
