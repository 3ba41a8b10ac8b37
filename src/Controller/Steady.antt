-- ===== src/Controller/Steady.antt =====
-- statReserve, getTapParams and setTapParams of CinderUserspace/PowerArbiter/controller.c, and the
-- invariant of the database.
use cinder_userspace.Base.{
  ℕ, ◌≡◌, true, false, some, arith, ◌==◌, Option-cases, Bool-cases, inl, inr,
}
use cinder_userspace.Base.Int.{ℤ}
use cinder_userspace.Os.{Ptr, null, allocated, Env}
use cinder_userspace.Store.{World, Returns}
use cinder_userspace.Context.{PaContext}
use cinder_userspace.Dbase.Invariant.{Inv, heap_null, is_some}
use cinder_userspace.Dbase.Steady.{Steady}
use cinder_userspace.Controller.{
  create_for, stat_record, stat_reserve, get_tap_params, set_tap_params,
}

module _ {H L : Type 0} (env : Env H L) (c : PaContext) (uid : ℕ) (task : ℤ) (remote : ℕ)
    (w : World H L) (db : (c.dbase == null) ≡ false) (v : Inv env w) (q : Ptr) where
  open env.hash use {find}

  pub get_tap_params-Steady :
      (type_loc value_loc : Ptr)
      → Returns (λ a. Steady q w) (get_tap_params env (some c) uid task remote type_loc value_loc w)
  unfolding get_tap_params allocated
  get_tap_params-Steady type_loc value_loc = elim (Option-cases (find w.active uid)) [
    | inl e ↦ ground arith
    | inr (p, e) ↦ elim (Option-cases (w.heap p)) [
      | inl out ↦ absurd (ground (arith, v.keyed uid p e))
      | inr (r, here) ↦ ground (arith, heap_null env w v)
    ]
  ]

  pub set_tap_params-Steady :
      (tap_type : ℕ) (tap_value : ℤ) (loc : Ptr)
      → Returns
          (λ a. Steady q w)
          (set_tap_params env (some c) uid task remote tap_type tap_value loc w)
  unfolding set_tap_params allocated
  set_tap_params-Steady tap_type tap_value loc = elim (Option-cases (find w.active uid)) [
    | inl e ↦ ground arith
    | inr (p, e) ↦ elim (Option-cases (w.heap p)) [
      | inl out ↦ absurd (ground (arith, v.keyed uid p e))
      | inr (r, here) ↦ ground (arith, heap_null env w v)
    ]
  ]

  create_for-Steady :
      (p : Ptr) (root : ℤ)
      → is_some (w.heap p) ≡ true
      → Returns (λ a. Steady q w) (create_for env uid p root w)
  unfolding create_for allocated
  create_for-Steady p root here = ground arith

  stat_record-Steady :
      (p : Ptr) (root : ℤ)
      → is_some (w.heap p) ≡ true
      → Returns (λ a. Steady q w) (stat_record env uid task p root w)
  unfolding stat_record allocated
  stat_record-Steady p root here = ground arith

  pub stat_reserve-Steady :
      (rid flags : Ptr)
      → Returns (λ a. Steady q w) (stat_reserve env (some c) uid task remote rid flags w)
  unfolding stat_reserve allocated
  stat_reserve-Steady rid flags = elim (Option-cases (find w.active uid)) [
    | inl e ↦ ground arith
    | inr (p, e) ↦ elim (Option-cases (w.heap p)) [
      | inl out ↦ absurd (ground (arith, v.keyed uid p e))
      | inr (r, here) ↦ elim (Bool-cases (r.reserve_data.reserve_created)) [
        | inl old ↦ ground (arith, heap_null env w v)
        | inr new ↦ ground (arith, heap_null env w v)
      ]
    ]
  ]
