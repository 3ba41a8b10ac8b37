-- ===== src/Controller/Locks.antt =====
-- The five requests of CinderUserspace/PowerArbiter/controller.c and the locks that they take.
use cinder_userspace.Base.{ℕ, ◌≡◌, false, some, arith, ◌==◌, Option-cases, Bool-cases, inl, inr}
use cinder_userspace.Base.Int.{ℤ}
use cinder_userspace.Os.{Ptr, null, Mutex, Env}
use cinder_userspace.Os.Ledger.{locked}
use cinder_userspace.Store.{World, Returns}
use cinder_userspace.Context.{PaContext}
use cinder_userspace.Dbase.{add_entry, remove_entry}
use cinder_userspace.Dbase.Invariant.{Inv, heap_null}
use cinder_userspace.Controller.{
  stat_reserve, get_tap_params, set_tap_params, add_reserve_params_for_uid,
  remove_reserve_params_for_uid,
}

module _ {H L : Type 0} (env : Env H L) (c : PaContext) (uid : ℕ) (task : ℤ) (remote : ℕ)
    (w : World H L) (db : (c.dbase == null) ≡ false) (v : Inv env w) (m : Mutex)
    (free : locked m w.trace ≡ false) where
  open env.hash use {find}

  pub get_tap_params-unlocks :
      (type_loc value_loc : Ptr)
      → Returns
          (λ a w'. locked m w'.trace ≡ false)
          (get_tap_params env (some c) uid task remote type_loc value_loc w)
  unfolding get_tap_params locked
  get_tap_params-unlocks type_loc value_loc = elim (Option-cases (find w.active uid)) [
    | inl e ↦ ground arith
    | inr (p, e) ↦ elim (Option-cases (w.heap p)) [
      | inl out ↦ absurd (ground (arith, v.keyed uid p e))
      | inr (r, here) ↦ ground (arith, heap_null env w v)
    ]
  ]

  pub set_tap_params-unlocks :
      (tap_type : ℕ) (tap_value : ℤ) (loc : Ptr)
      → Returns
          (λ a w'. locked m w'.trace ≡ false)
          (set_tap_params env (some c) uid task remote tap_type tap_value loc w)
  unfolding set_tap_params locked
  set_tap_params-unlocks tap_type tap_value loc = elim (Option-cases (find w.active uid)) [
    | inl e ↦ ground arith
    | inr (p, e) ↦ elim (Option-cases (w.heap p)) [
      | inl out ↦ absurd (ground (arith, v.keyed uid p e))
      | inr (r, here) ↦ ground (arith, heap_null env w v)
    ]
  ]

  pub stat_reserve-unlocks :
      (rid flags : Ptr)
      → Returns
          (λ a w'. locked m w'.trace ≡ false)
          (stat_reserve env (some c) uid task remote rid flags w)
  unfolding stat_reserve locked
  stat_reserve-unlocks rid flags = elim (Option-cases (find w.active uid)) [
    | inl e ↦ ground arith
    | inr (p, e) ↦ elim (Option-cases (w.heap p)) [
      | inl out ↦ absurd (ground (arith, v.keyed uid p e))
      | inr (r, here) ↦ elim (Bool-cases (r.reserve_data.reserve_created)) [
        | inl old ↦ ground (arith, heap_null env w v)
        | inr new ↦ ground (arith, heap_null env w v)
      ]
    ]
  ]

  pub add-unlocks :
      (tap_type : ℕ) (tap_value : ℤ) (loc : Ptr)
      → Returns
          (λ a w'. locked m w'.trace ≡ false)
          (add_reserve_params_for_uid env (some c) uid task remote tap_type tap_value loc w)
  unfolding add_reserve_params_for_uid add_entry locked
  add-unlocks tap_type tap_value loc = ground arith

  pub remove-unlocks :
      Returns
        (λ a w'. locked m w'.trace ≡ false)
        (remove_reserve_params_for_uid env (some c) uid task remote w)
  unfolding remove_reserve_params_for_uid remove_entry locked
  remove-unlocks = elim (Option-cases (find w.active uid)) [
    | inl e ↦ ground arith
    | inr (p, e) ↦ ground (arith, v.keyed uid p e)
  ]
