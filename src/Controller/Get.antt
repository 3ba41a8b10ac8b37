-- ===== src/Controller/Get.antt =====
-- getTapParams of CinderUserspace/PowerArbiter/controller.c.
use cinder_userspace.Base.{
  ℕ, ◌≡◌, true, false, Option, none, some, arith, ◌==◌, Option-cases, inl, inr,
}
use cinder_userspace.Base.Int.{ℤ, is_zero, enoent}
use cinder_userspace.Os.{Ptr, null, dbase_lock, mutex_lock, Env}
use cinder_userspace.Store.{World, Returns}
use cinder_userspace.Context.{PaContext}
use cinder_userspace.Dbase.Invariant.{Inv, is_some, heap_null}
use cinder_userspace.Dbase.View.{entry, params_of}
use cinder_userspace.Controller.{get_tap_params}

module _ {H L : Type 0} (env : Env H L) where
  open env.hash use {find, delete}

  pub record Got (uid : ℕ) (w : World H L) (a : ℤ × Option (ℕ × ℤ)) (w' : World H L) : Type 0 where
    pub active : w'.active ≡ w.active
    pub dead_list : w'.dead_list ≡ w.dead_list
    pub heap : w'.heap ≡ w.heap
    pub failed : is_zero (a.0) ≡ false → a.1 ≡ none
    pub found : is_zero (a.0) ≡ true → a.1 ≡ params_of (entry env w uid)
    pub present : is_zero (a.0) ≡ true → is_some (entry env w uid) ≡ true
    pub missing :
        is_zero (env.result w.trace (mutex_lock dbase_lock)) ≡ true
        → entry env w uid ≡ none
        → a.0 ≡ enoent

  -- getTapParams, given the invariant and places to store, changes neither the database nor a
  -- record. It stores nothing on an error; on a success the uid is in the database, and what is
  -- stored are its parameters. Where the database is locked and the uid is absent, it returns
  -- -ENOENT.
  pub get_tap_params-Got :
      (c : PaContext) (uid : ℕ) (task : ℤ) (remote : ℕ) (type_loc value_loc : Ptr) (w : World H L)
      → (c.dbase == null) ≡ false
      → (type_loc == null) ≡ false
      → (value_loc == null) ≡ false
      → Inv env w
      → Returns (Got uid w) (get_tap_params env (some c) uid task remote type_loc value_loc w)
  unfolding get_tap_params
  get_tap_params-Got c uid task remote type_loc value_loc w db g1 g2 v =
      elim (Option-cases (find w.active uid)) [
        | inl e ↦ ground arith
        | inr (p, e) ↦ elim (Option-cases (w.heap p)) [
          | inl out ↦ absurd (ground (arith, v.keyed uid p e))
          | inr (r, here) ↦ ground (arith, heap_null env w v)
        ]
      ]
