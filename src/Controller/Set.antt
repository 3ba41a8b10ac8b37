-- ===== src/Controller/Set.antt =====
-- setTapParams of CinderUserspace/PowerArbiter/controller.c.
use cinder_userspace.Base.{
  ℕ, ◌≡◌, true, false, some, arith, ◌==◌, ◌&&◌, ◌||◌, if◌then◌else◌, Option-cases, inl, inr,
}
use cinder_userspace.Base.Int.{ℤ, is_zero, einval}
use cinder_userspace.Os.{Ptr, null, Env}
use cinder_userspace.Store.{World, Returns, ok}
use cinder_userspace.Context.{PaContext, pa_invalid_input}
use cinder_userspace.Dbase.Invariant.{Inv, heap_null}
use cinder_userspace.Dbase.View.{entry, with_params}
use cinder_userspace.Controller.{set_tap_params, bad_type_or_sign, bad_share}

module _ {H L : Type 0} (env : Env H L) where
  open env.hash use {find}

  module _ (c : PaContext) (uid : ℕ) (task : ℤ) (remote : ℕ) (tap_type : ℕ) (tap_value : ℤ)
      (loc : Ptr) (w : World H L) (db : (c.dbase == null) ≡ false)
      (given : (loc == null) ≡ false) where
    -- Given a place for the error code, parameters that one of the two tests refuses make
    -- setTapParams return -EINVAL with the code for invalid input; it makes no call, and changes
    -- nothing.
    set_tap_params_invalid :
        (bad_type_or_sign tap_type tap_value || bad_share tap_type tap_value) ≡ true
        → set_tap_params env (some c) uid task remote tap_type tap_value loc w
          ≡ ok (einval, some pa_invalid_input) w
    unfolding set_tap_params
    set_tap_params_invalid bad = ground arith

    module _ (v : Inv env w) where
      -- setTapParams, given the invariant, changes the type and the value of the entry of its uid
      -- where it returns 0 and a place for the error code is given; every other entry, and where it
      -- fails every entry, is as before.
      pub set_tap_params-map :
          (k : ℕ)
          → Returns
              (λ a w'. entry env w' k ≡ (
                if is_zero (a.0) && (uid == k)
                then with_params tap_type tap_value (entry env w k)
                else entry env w k))
              (set_tap_params env (some c) uid task remote tap_type tap_value loc w)
      unfolding set_tap_params
      set_tap_params-map k = elim (Option-cases (find w.active uid)) [
        | inl e ↦ ground arith
        | inr (p, e) ↦ elim (Option-cases (w.heap p)) [
          | inl out ↦ absurd (ground (arith, v.keyed uid p e))
          | inr (r, here) ↦ elim (Option-cases (find w.active k)) [
            | inl f ↦ ground (arith, heap_null env w v)
            | inr (q, f) ↦ ground (arith, heap_null env w v, v.keyed uid p, v.keyed k q)
          ]
        ]
      ]
