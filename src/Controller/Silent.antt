-- ===== src/Controller/Silent.antt =====
-- The five requests of CinderUserspace/PowerArbiter/controller.c and the sockets: they send and receive nothing.
use cinder_userspace.Base.{ℕ, ◌≡◌, false, some, arith, ◌==◌, Option-cases, Bool-cases, inl, inr}
use cinder_userspace.Base.Int.{ℤ}
use cinder_userspace.Os.{Ptr, null, Env}
use cinder_userspace.Os.Ledger.{delivered, bytes_received, opened}
use cinder_userspace.Store.{World, Returns}
use cinder_userspace.Context.{PaContext}
use cinder_userspace.Dbase.{add_entry, remove_entry}
use cinder_userspace.Dbase.Invariant.{Inv, heap_null}
use cinder_userspace.Controller.{
  stat_reserve, get_tap_params, set_tap_params, add_reserve_params_for_uid,
  remove_reserve_params_for_uid,
}

-- Nothing was sent to the peer of a socket, nothing was received, and no socket was made or closed.
abbrev pub Silent : {H L : Type 0} → ℤ → (w w' : World H L) → Type 0
Silent sock w w' =
    (delivered sock w'.trace ≡ delivered sock w.trace)
    × (bytes_received w'.trace ≡ bytes_received w.trace)
    × (opened w'.trace ≡ opened w.trace)

module _ {H L : Type 0} (env : Env H L) (c : PaContext) (uid : ℕ) (task : ℤ) (remote : ℕ)
    (w : World H L) (db : (c.dbase == null) ≡ false) (v : Inv env w) (sock : ℤ) where
  open env.hash use {find}

  pub get_tap_params-Silent :
      (type_loc value_loc : Ptr)
      → Returns
          (λ a. Silent sock w)
          (get_tap_params env (some c) uid task remote type_loc value_loc w)
  unfolding get_tap_params delivered bytes_received opened
  get_tap_params-Silent type_loc value_loc = elim (Option-cases (find w.active uid)) [
    | inl e ↦ ground arith
    | inr (p, e) ↦ elim (Option-cases (w.heap p)) [
      | inl out ↦ absurd (ground (arith, v.keyed uid p e))
      | inr (r, here) ↦ ground (arith, heap_null env w v)
    ]
  ]

  pub set_tap_params-Silent :
      (tap_type : ℕ) (tap_value : ℤ) (loc : Ptr)
      → Returns
          (λ a. Silent sock w)
          (set_tap_params env (some c) uid task remote tap_type tap_value loc w)
  unfolding set_tap_params delivered bytes_received opened
  set_tap_params-Silent tap_type tap_value loc = elim (Option-cases (find w.active uid)) [
    | inl e ↦ ground arith
    | inr (p, e) ↦ elim (Option-cases (w.heap p)) [
      | inl out ↦ absurd (ground (arith, v.keyed uid p e))
      | inr (r, here) ↦ ground (arith, heap_null env w v)
    ]
  ]

  pub stat_reserve-Silent :
      (rid flags : Ptr)
      → Returns (λ a. Silent sock w) (stat_reserve env (some c) uid task remote rid flags w)
  unfolding stat_reserve delivered bytes_received opened
  stat_reserve-Silent rid flags = elim (Option-cases (find w.active uid)) [
    | inl e ↦ ground arith
    | inr (p, e) ↦ elim (Option-cases (w.heap p)) [
      | inl out ↦ absurd (ground (arith, v.keyed uid p e))
      | inr (r, here) ↦ elim (Bool-cases (r.reserve_data.reserve_created)) [
        | inl old ↦ ground (arith, heap_null env w v)
        | inr new ↦ ground (arith, heap_null env w v)
      ]
    ]
  ]

  pub add-Silent :
      (tap_type : ℕ) (tap_value : ℤ) (loc : Ptr)
      → Returns
          (λ a. Silent sock w)
          (add_reserve_params_for_uid env (some c) uid task remote tap_type tap_value loc w)
  unfolding add_reserve_params_for_uid add_entry delivered bytes_received opened
  add-Silent tap_type tap_value loc = ground arith

  pub remove-Silent :
      Returns (λ a. Silent sock w) (remove_reserve_params_for_uid env (some c) uid task remote w)
  unfolding remove_reserve_params_for_uid remove_entry delivered bytes_received opened
  remove-Silent = elim (Option-cases (find w.active uid)) [
    | inl e ↦ ground arith
    | inr (p, e) ↦ ground (arith, v.keyed uid p e)
  ]
