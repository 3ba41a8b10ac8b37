-- ===== src/Reaper/Quit.antt =====
-- The reaper of CinderUserspace/PowerArbiter/main.c over a dead list that is empty.
use cinder_userspace.Base.{
  ℕ, zero, suc, ◌+◌, ◌≡◌, refl, true, false, some, arith, ◌==◌, Bool-cases, inl, inr,
}
use cinder_userspace.Base.Int.{ℤ, pos, is_zero}
use cinder_userspace.Os.{
  null, Mutex, dbase_lock, context_lock, mutex_lock, mutex_unlock, sleep, Trace, Env,
}
use cinder_userspace.Os.Ledger.{posted}
use cinder_userspace.Store.{World, Returns, Returns-bind, logged}
use cinder_userspace.Record.{local}
use cinder_userspace.Context.{PaContext}
use cinder_userspace.Dbase.{clear_unused_loop, clear_unused}
use cinder_userspace.Reaper.{reaper_thread_loop, do_sleep, quit}

module _ {H L : Type 0} (env : Env H L)
    (lock : (t : Trace) (m : Mutex) → is_zero (env.result t (mutex_lock m)) ≡ true) where
  empty_pass :
      (dbase : ℕ) (w : World H L)
      → (dbase == null) ≡ false
      → env.list.is_empty w.dead_list ≡ true
      → Returns
          (λ a w'. (a ≡ (pos 0, some (pos 1))) × (w'.dead_list ≡ w.dead_list))
          (clear_unused env dbase local w)
  unfolding clear_unused clear_unused_loop
  empty_pass dbase w g e =
      let err_zero : env.result w.trace (mutex_lock dbase_lock) ≡ pos 0 =
        ground (arith, lock w.trace dbase_lock) in
      rw (g, err_zero, env.list.is_empty-entries w.dead_list e, e) (refl, refl)

  module _ (contexts : ℕ → PaContext) (db : (n : ℕ) → ((contexts n).dbase == null) ≡ false) where
    quit_round :
        (fuel n : ℕ) (is_empty : ℤ) (w : World H L)
        → env.list.is_empty w.dead_list ≡ true
        → ((w' : World H L)
            → w'.dead_list ≡ w.dead_list
            → is_zero (contexts n).reaper_should_exit ≡ true
            → Returns
                (λ a w'. (a ≡ pos 0) × (posted w'.trace ≡ true))
                (reaper_thread_loop env contexts fuel (n + 1) (pos 1) w'))
        → Returns
            (λ a w'. (a ≡ pos 0) × (posted w'.trace ≡ true))
            (reaper_thread_loop env contexts (suc fuel) n is_empty w)
    unfolding reaper_thread_loop do_sleep quit posted
    quit_round fuel n is_empty w none_left next =
        rw (lock w.trace context_lock, Returns)
          (Returns-bind (λ a w'. (a ≡ pos 0) × (posted w'.trace ≡ true))
            (λ a w'. (a ≡ (pos 0, some (pos 1))) × (w'.dead_list ≡ w.dead_list))
            (clear_unused env (contexts n).dbase local unlocked) _
            (empty_pass (contexts n).dbase unlocked (db n) none_left)
            (λ a w' (e, same). elim (Bool-cases (is_zero (contexts n).reaper_should_exit)) [
              | inr q ↦ rw (q, e, Returns) (refl, refl)
              | inl q ↦
                  rw (q, e, Returns)
                    (next (logged w' (sleep 1) (env.result w'.trace (sleep 1))) same q)
            ]))
      where
        locked_world : World H L
        locked_world =
            logged w (mutex_lock context_lock) (env.result w.trace (mutex_lock context_lock))

        unlocked : World H L
        unlocked =
            logged locked_world (mutex_unlock context_lock)
              (env.result locked_world.trace (mutex_unlock context_lock))

    -- Where the dead list is empty and the locks succeed, a reaper that is told to quit in the
    -- round that is `later` rounds away quits within later + 1 rounds: it returns 0, and has posted
    -- the semaphore that a shutdown waits for.
    pub reaper_quits :
        (later n : ℕ) (is_empty : ℤ) (w : World H L)
        → env.list.is_empty w.dead_list ≡ true
        → is_zero (contexts (n + later)).reaper_should_exit ≡ false
        → Returns
            (λ a w'. (a ≡ pos 0) × (posted w'.trace ≡ true))
            (reaper_thread_loop env contexts (suc later) n is_empty w)
    reaper_quits zero n is_empty w none_left told =
        let here : n + 0 ≡ n = omega arith in
        quit_round zero n is_empty w none_left (λ w' same q. absurd (ground (arith, here, told, q)))
    reaper_quits (suc later) n is_empty w none_left told =
        let here : n + suc later ≡ n + 1 + later = omega arith in
        quit_round (suc later) n is_empty w none_left
          (λ w' same q. reaper_quits later (n + 1) (pos 1) w' (rw same none_left) (rw here at told))
