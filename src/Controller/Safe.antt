-- ===== src/Controller/Safe.antt =====
-- The five requests of CinderUserspace/PowerArbiter/controller.c, and what is to hold between any
-- two of them.
use cinder_userspace.Base.{ℕ, ◌≡◌, false, some, ◌==◌}
use cinder_userspace.Base.Int.{ℤ}
use cinder_userspace.Os.{Ptr, null, Mutex, dbase_lock, Env}
use cinder_userspace.Os.Ledger.{locked}
use cinder_userspace.Store.{World, Run, Returns, Returns-mono, Returns-all, Returns-and}
use cinder_userspace.Context.{PaContext}
use cinder_userspace.Dbase.Invariant.{Inv}
use cinder_userspace.Dbase.Steady.{Steady, Steady-Inv}
use cinder_userspace.Controller.Add.{Accepted, add-Accepted}
use cinder_userspace.Dbase.Remove.{Removed, remove_entry-Removed}
use cinder_userspace.Controller.{
  stat_reserve, get_tap_params, set_tap_params, add_reserve_params_for_uid,
  remove_reserve_params_for_uid,
}
use cinder_userspace.Controller.Steady.{
  get_tap_params-Steady, set_tap_params-Steady, stat_reserve-Steady,
}
use cinder_userspace.Controller.Locks.{
  get_tap_params-unlocks, set_tap_params-unlocks, stat_reserve-unlocks, add-unlocks, remove-unlocks,
}

module _ {H L : Type 0} (env : Env H L) where
  -- The database is well formed, and no lock is held.
  pub record Safe (w : World H L) : Type 0 where
    pub inv : Inv env w
    pub free : (m : Mutex) → locked m w.trace ≡ false

  unlocked-Safe :
      {A : Type 0} (run : Run H L A)
      → Returns (λ a. Inv env) run
      → ((m : Mutex) → Returns (λ a w'. locked m w'.trace ≡ false) run)
      → Returns (λ a. Safe) run
  unlocked-Safe run inv free =
      Returns-mono (λ a w'. Inv env w' × ((m : Mutex) → locked m w'.trace ≡ false)) (λ a. Safe) run
        (Returns-and (λ a. Inv env) (λ a w'. (m : Mutex) → locked m w'.trace ≡ false) run inv
          (Returns-all dbase_lock (λ m a w'. locked m w'.trace ≡ false) run free))
        (λ a w' (v, f). record { inv = v; free = f })

  kept-Inv :
      {A : Type 0} (w : World H L) (run : Run H L A)
      → Inv env w
      → ((q : Ptr) → Returns (λ a. Steady q w) run)
      → Returns (λ a. Inv env) run
  kept-Inv w run v steady =
      Returns-mono (λ a w'. (q : Ptr) → Steady q w w') (λ a. Inv env) run
        (Returns-all 0 (λ q a. Steady q w) run steady) (λ a w' s. Steady-Inv env w w' s v)

  module _ (c : PaContext) (uid : ℕ) (task : ℤ) (remote : ℕ) (w : World H L)
      (db : (c.dbase == null) ≡ false) (s : Safe w) where
    pub get_tap_params-Safe :
        (type_loc value_loc : Ptr)
        → Returns (λ a. Safe) (get_tap_params env (some c) uid task remote type_loc value_loc w)
    get_tap_params-Safe type_loc value_loc =
        unlocked-Safe _
          (kept-Inv w _ s.inv
            (λ q. get_tap_params-Steady env c uid task remote w db s.inv q type_loc value_loc))
          (λ m.
            get_tap_params-unlocks env c uid task remote w db s.inv m (s.free m) type_loc value_loc)

    pub set_tap_params-Safe :
        (tap_type : ℕ) (tap_value : ℤ) (loc : Ptr)
        → Returns (λ a. Safe) (set_tap_params env (some c) uid task remote tap_type tap_value loc w)
    set_tap_params-Safe tap_type tap_value loc =
        unlocked-Safe _
          (kept-Inv w _ s.inv
            (λ q. set_tap_params-Steady env c uid task remote w db s.inv q tap_type tap_value loc))
          (λ m.
            set_tap_params-unlocks env c uid task remote w db s.inv m (s.free m) tap_type tap_value
              loc)

    pub stat_reserve-Safe :
        (rid flags : Ptr)
        → Returns (λ a. Safe) (stat_reserve env (some c) uid task remote rid flags w)
    stat_reserve-Safe rid flags =
        unlocked-Safe _
          (kept-Inv w _ s.inv
            (λ q. stat_reserve-Steady env c uid task remote w db s.inv q rid flags))
          (λ m. stat_reserve-unlocks env c uid task remote w db s.inv m (s.free m) rid flags)

    pub add-Safe :
        (tap_type : ℕ) (tap_value : ℤ) (loc : Ptr)
        → Returns
            (λ a. Safe)
            (add_reserve_params_for_uid env (some c) uid task remote tap_type tap_value loc w)
    add-Safe tap_type tap_value loc =
        unlocked-Safe _
          (Returns-mono (Accepted env uid tap_type tap_value w) (λ a. Inv env) _
            (add-Accepted env c uid task remote tap_type tap_value w db s.inv loc)
            (λ a w' r. r.inv))
          (λ m. add-unlocks env c uid task remote w db s.inv m (s.free m) tap_type tap_value loc)

    pub remove-Safe :
        Returns (λ a. Safe) (remove_reserve_params_for_uid env (some c) uid task remote w)
    unfolding remove_reserve_params_for_uid
    remove-Safe =
        unlocked-Safe _
          (Returns-mono (Removed env uid w) _ _ (remove_entry-Removed env c.dbase uid w db s.inv)
            (λ a w' r. r.inv))
          (λ m. remove-unlocks env c uid task remote w db s.inv m (s.free m))
