-- ===== src/Reaper/Shutdown.antt =====
-- The reaper of CinderUserspace/PowerArbiter/main.c, for whose end a shutdown waits.
use cinder_userspace.Base.{
  ℕ, zero, suc, ◌+◌, ◌≡◌, refl, true, false, List, [], ◌∷◌, some, none, arith, ◌==◌, mem,
  Option-cases, Bool-cases, inl, inr,
}
use cinder_userspace.Base.Int.{ℤ, pos, is_zero, is_pos}
use cinder_userspace.Os.{
  sleep, Ptr, null, Mutex, dbase_lock, context_lock, mutex_lock, mutex_unlock, sys_reserve_info,
  Trace, Env,
}
use cinder_userspace.Os.Ledger.{locked}
use cinder_userspace.Store.{
  UidReserveRecord, World, Cmd, Run, ok, fault, out_of_fuel, Returns, Returns-bind, Returns-mono,
  Returns-and, logged,
}
use cinder_userspace.Record.{local, record_destroy}
use cinder_userspace.Context.{PaContext}
use cinder_userspace.Dbase.{clear_unused_round, clear_unused_loop, clear_unused}
use cinder_userspace.Dbase.Invariant.{Inv, heap_null, is_some, logged-Inv}
use cinder_userspace.Dbase.Clear.{Passed, round-Passed, clear_unused-Passed, loop-Passed}
use cinder_userspace.Dbase.Clear.Passes.{clear_unused-Inv}
use cinder_userspace.Reaper.{reaper_thread_loop, do_sleep}

-- A run that ends in a state from which the rest uses up its fuel uses it up.
goes_on :
    {H L A B : Type 0} (P : A → World H L → Type 0) (m : Run H L A) (f : A → Cmd H L B)
    → Returns P m
    → ((a : A) (w : World H L) → P a w → f a w ≡ out_of_fuel)
    → elim m [ ok a w ↦ f a w | fault ↦ fault | out_of_fuel ↦ out_of_fuel ] ≡ out_of_fuel
goes_on P (ok a w) f p next = next a w p
goes_on P fault f p next = absurd p
goes_on P out_of_fuel f p next = refl

module _ {H L : Type 0} (env : Env H L)
    (used : (t : Trace) (id : ℤ) → is_pos (env.num_users t id) ≡ true)
    (answers : (t : Trace) (id : ℤ) → is_zero (env.result t (sys_reserve_info id)) ≡ true) where
  open env.list use {entries}

  round_err :
      (p : Ptr) (r : UidReserveRecord) (w : World H L)
      → (p == null) ≡ false
      → w.heap p ≡ some r
      → Returns (λ e w'. e ≡ pos 0) (clear_unused_round env (pos 0) p w)
  unfolding clear_unused_round record_destroy
  round_err p r w g here =
      ground
        (arith, used w.trace r.reserve_data.reserve_id, answers w.trace r.reserve_data.reserve_id)

  loop_err :
      (ps : List Ptr) (w : World H L)
      → w.heap null ≡ none
      → ((p : Ptr) → mem p ps ≡ true → is_some (w.heap p) ≡ true)
      → Returns (λ e w'. e ≡ pos 0) (clear_unused_loop env (pos 0) ps w)
  unfolding clear_unused_loop
  loop_err [] w z known = refl
  loop_err (p ∷ ps) w z known = elim (Option-cases (w.heap p)) [
    | inl out ↦ absurd (ground (arith, known p))
    | inr (r, here) ↦
        Returns-bind (λ e w'. e ≡ pos 0)
          (λ e w'. (e ≡ pos 0) × Passed env (pos 0) dbase_lock 0 w w')
          (clear_unused_round env (pos 0) p w) (λ e. clear_unused_loop env e ps)
          (Returns-and (λ e w'. e ≡ pos 0) (λ e. Passed env (pos 0) dbase_lock 0 w) _
            (round_err p r w (ground arith) here)
            (round-Passed env used (pos 0) dbase_lock 0 (pos 0) p r w (ground arith) here))
          (λ e w' (zero_err, s).
            rw zero_err
              (loop_err ps w' (ground (arith, s.heap)) (λ x h. ground (arith, s.heap, known x))))
  ]

  module _ (lock : (t : Trace) (m : Mutex) → is_zero (env.result t (mutex_lock m)) ≡ true) where
    -- A pass over a dead list that is not empty succeeds, and says so.
    pass_result :
        (dbase : Ptr) (w : World H L)
        → (dbase == null) ≡ false
        → Inv env w
        → env.list.is_empty w.dead_list ≡ false
        → Returns (λ a w'. a ≡ (pos 0, some (pos 0))) (clear_unused env dbase local w)
    unfolding clear_unused
    pass_result dbase w g v more =
        let err_zero : err ≡ pos 0 = ground (arith, lock w.trace dbase_lock) in
        rw (g, err_zero)
          (Returns-bind (λ a w'. a ≡ (pos 0, some (pos 0)))
            (λ e w'. (e ≡ pos 0) × (w'.dead_list ≡ w.dead_list))
            (clear_unused_loop env (pos 0) (entries w.dead_list)
              (logged w (mutex_lock dbase_lock) (pos 0)))
            _
            (Returns-and (λ e w'. e ≡ pos 0) (λ e w'. w'.dead_list ≡ w.dead_list) _
              (loop_err (entries w.dead_list) start (heap_null env w v) v.buried)
              (Returns-mono (λ e. Passed env (pos 0) dbase_lock 0 start)
                (λ e w'. w'.dead_list ≡ w.dead_list) _
                (loop-Passed env used (pos 0) dbase_lock 0 (pos 0) (entries w.dead_list) start
                  (heap_null env w v) v.buried)
                (λ e w' s. s.dead_list)))
            (λ e w' (e0, same). rw (e0, same, more)))
      where
        err : ℤ
        err = env.result w.trace (mutex_lock dbase_lock)

        start : World H L
        start = logged w (mutex_lock dbase_lock) (pos 0)

    module _ (contexts : ℕ → PaContext) (db : (n : ℕ) → ((contexts n).dbase == null) ≡ false) where
      -- Once a record is on the dead list, the reaper of a database that satisfies the invariant
      -- and is not locked never quits, whenever it is told to: where the locks and the kernel's
      -- reports succeed and every reserve has a user, no number of rounds is enough, since each
      -- pass reports that the list is not empty.
      pub reaper_never_quits :
          (fuel n : ℕ) (is_empty : ℤ) (w : World H L)
          → env.list.is_empty w.dead_list ≡ false
          → locked dbase_lock w.trace ≡ false
          → Inv env w
          → reaper_thread_loop env contexts fuel n is_empty w ≡ out_of_fuel
      unfolding reaper_thread_loop do_sleep locked
      reaper_never_quits zero n is_empty w more free v = refl
      reaper_never_quits (suc fuel) n is_empty w more free v = rw (lock w.trace context_lock) (
          goes_on
            (λ a w'.
              (a ≡ (pos 0, some (pos 0)))
              × ((Inv env w') × Passed env (pos 0) dbase_lock 0 unlocked w'))
            (clear_unused env (contexts n).dbase local unlocked) _
            (Returns-and (λ a w'. a ≡ (pos 0, some (pos 0)))
              (λ a w'. (Inv env w') × Passed env (pos 0) dbase_lock 0 unlocked w') _
              (pass_result (contexts n).dbase unlocked (db n) unlocked_Inv more)
              (Returns-and (λ a. Inv env) (λ a. Passed env (pos 0) dbase_lock 0 unlocked) _
                (clear_unused-Inv env used (contexts n).dbase local unlocked (db n) refl free
                  unlocked_Inv)
                (Returns-mono
                  (λ a w'.
                    Passed env (pos 0) dbase_lock 0 unlocked w'
                    × (a.1 ≡ some (pos 1) → entries w.dead_list ≡ []))
                  _ _
                  (clear_unused-Passed env used (pos 0) dbase_lock 0 (contexts n).dbase local
                    unlocked (db n) refl free unlocked_Inv)
                  (λ a w' s. s.0))))
            (λ a w' (e, t). rw e (elim (Bool-cases (is_zero (contexts n).reaper_should_exit)) [
              | inl q ↦ rw q (
                  reaper_never_quits fuel (n + 1) (pos 0)
                    (logged w' (sleep 1) (env.result w'.trace (sleep 1))) (rw t.1.dead_list more)
                    (rw t.1.lock free) (logged-Inv env w' (sleep 1) _ refl t.0))
              | inr q ↦ rw q (
                  reaper_never_quits fuel (n + 1) (pos 0)
                    (logged w' (sleep 1) (env.result w'.trace (sleep 1))) (rw t.1.dead_list more)
                    (rw t.1.lock free) (logged-Inv env w' (sleep 1) _ refl t.0))
            ])))
        where
          locked_world : World H L
          locked_world =
              logged w (mutex_lock context_lock) (env.result w.trace (mutex_lock context_lock))

          unlocked : World H L
          unlocked =
              logged locked_world (mutex_unlock context_lock)
                (env.result locked_world.trace (mutex_unlock context_lock))

          unlocked_Inv : Inv env unlocked
          unlocked_Inv =
              logged-Inv env locked_world (mutex_unlock context_lock) _ refl
                (logged-Inv env w (mutex_lock context_lock) _ refl v)
