-- ===== src/Controller/Success.antt =====
-- The return values of the five requests of CinderUserspace/PowerArbiter/controller.c.
use cinder_userspace.Base.{
  ℕ, ◌≡◌, true, false, ◌||◌, some, arith, ◌==◌, if◌then◌else◌, Option-cases, Bool-cases, inl, inr,
}
use cinder_userspace.Base.Int.{ℤ, pos, enoent, eexist, einval}
use cinder_userspace.Os.{Ptr, null, Env}
use cinder_userspace.Os.Ledger.{failures, unless_failed}
use cinder_userspace.Store.{World, Returns}
use cinder_userspace.Context.{PaContext}
use cinder_userspace.Dbase.{add_entry, remove_entry}
use cinder_userspace.Dbase.Invariant.{Inv, heap_null, is_some}
use cinder_userspace.Dbase.View.{entry}
use cinder_userspace.Controller.{
  stat_reserve, get_tap_params, set_tap_params, add_reserve_params_for_uid,
  remove_reserve_params_for_uid, bad_type_or_sign, bad_share,
}

module _ {H L : Type 0} (env : Env H L) (c : PaContext) (uid : ℕ) (task : ℤ) (remote : ℕ)
    (w : World H L) (db : (c.dbase == null) ≡ false) (v : Inv env w) where
  open env.hash use {find}

  -- Given the invariant and places to store, unless a lock fails, getTapParams returns 0 if the uid
  -- is in the database and -ENOENT if it is not.
  get_tap_params-Returns :
      (type_loc value_loc : Ptr)
      → (type_loc == null) ≡ false
      → (value_loc == null) ≡ false
      → Returns
          (λ a w'.
            unless_failed w.trace w'.trace
              (a.0)
              (if is_some (entry env w uid) then pos 0 else enoent)
            ≡ true)
          (get_tap_params env (some c) uid task remote type_loc value_loc w)
  unfolding get_tap_params failures
  get_tap_params-Returns type_loc value_loc g1 g2 = elim (Option-cases (find w.active uid)) [
    | inl e ↦ ground arith
    | inr (p, e) ↦ elim (Option-cases (w.heap p)) [
      | inl out ↦ absurd (ground (arith, v.keyed uid p e))
      | inr (r, here) ↦ ground (arith, heap_null env w v)
    ]
  ]

  -- Given the invariant and a place for the error code, unless a call that it makes fails,
  -- setTapParams returns -EINVAL exactly for invalid parameters, and for others 0 if the uid is in
  -- the database and -ENOENT if it is not.
  pub set_tap_params-Returns :
      (tap_type : ℕ) (tap_value : ℤ) (loc : Ptr)
      → (loc == null) ≡ false
      → Returns
          (λ a w'.
            unless_failed w.trace w'.trace (a.0) (
              (if bad_type_or_sign tap_type tap_value || bad_share tap_type tap_value
                then einval
                else if is_some (entry env w uid)
                then pos 0
                else enoent))
            ≡ true)
          (set_tap_params env (some c) uid task remote tap_type tap_value loc w)
  unfolding set_tap_params failures
  set_tap_params-Returns tap_type tap_value loc g = elim (Option-cases (find w.active uid)) [
    | inl e ↦ ground arith
    | inr (p, e) ↦ elim (Option-cases (w.heap p)) [
      | inl out ↦ absurd (ground (arith, v.keyed uid p e))
      | inr (r, here) ↦ ground (arith, heap_null env w v)
    ]
  ]

  -- Given the invariant and places to store, statReserve returns 0 unless a lock or a kernel call
  -- that it makes fails.
  pub stat_reserve-Returns :
      (rid flags : Ptr)
      → (rid == null) ≡ false
      → (flags == null) ≡ false
      → Returns
          (λ a w'. unless_failed w.trace w'.trace (a.0) (pos 0) ≡ true)
          (stat_reserve env (some c) uid task remote rid flags w)
  unfolding stat_reserve failures
  stat_reserve-Returns rid flags g1 g2 = elim (Option-cases (find w.active uid)) [
    | inl e ↦ ground arith
    | inr (p, e) ↦ elim (Option-cases (w.heap p)) [
      | inl out ↦ absurd (ground (arith, v.keyed uid p e))
      | inr (r, here) ↦ elim (Bool-cases (r.reserve_data.reserve_created)) [
        | inl old ↦ ground (arith, heap_null env w v)
        | inr new ↦ ground (arith, heap_null env w v)
      ]
    ]
  ]

  -- Given the invariant and a place for the error code, unless a call that it makes fails,
  -- addReserveParamsForUID returns -EINVAL for invalid parameters, and for others -EEXIST if the
  -- uid is in the database and 0 if it is not.
  pub add-Returns :
      (tap_type : ℕ) (tap_value : ℤ) (loc : Ptr)
      → (loc == null) ≡ false
      → Returns
          (λ a w'.
            unless_failed w.trace w'.trace (a.0) (
              if bad_type_or_sign tap_type tap_value || bad_share tap_type tap_value
              then einval
              else if is_some (entry env w uid)
              then eexist
              else pos 0)
            ≡ true)
          (add_reserve_params_for_uid env (some c) uid task remote tap_type tap_value loc w)
  unfolding add_reserve_params_for_uid failures add_entry
  add-Returns tap_type tap_value loc g = elim (Option-cases (find w.active uid)) [
    | inl e ↦ ground arith
    | inr (p, e) ↦ ground (arith, v.keyed uid p)
  ]

  -- Given the invariant, unless the lock fails, removeReserveParamsForUID returns 0 if the uid is
  -- in the database and -ENOENT if it is not.
  remove-Returns :
      Returns
        (λ err w'.
          unless_failed w.trace w'.trace err (if is_some (entry env w uid) then pos 0 else enoent)
          ≡ true)
        (remove_reserve_params_for_uid env (some c) uid task remote w)
  unfolding remove_reserve_params_for_uid failures remove_entry
  remove-Returns = elim (Option-cases (find w.active uid)) [
    | inl e ↦ ground arith
    | inr (p, e) ↦ ground (arith, v.keyed uid p)
  ]

  -- Given the invariant and places to store, unless a lock fails, getTapParams returns 0 if the uid
  -- is in the database and -ENOENT if it is not; and so does removeReserveParamsForUID.
  pub get_and_remove-Returns :
      (type_loc value_loc : Ptr)
      → (type_loc == null) ≡ false
      → (value_loc == null) ≡ false
      → Returns
          (λ a w'.
            unless_failed w.trace w'.trace
              (a.0)
              (if is_some (entry env w uid) then pos 0 else enoent)
            ≡ true)
          (get_tap_params env (some c) uid task remote type_loc value_loc w)
        × Returns
            (λ err w'.
              unless_failed w.trace w'.trace err
                (if is_some (entry env w uid) then pos 0 else enoent)
              ≡ true)
            (remove_reserve_params_for_uid env (some c) uid task remote w)
  get_and_remove-Returns type_loc value_loc g1 g2 =
      (get_tap_params-Returns type_loc value_loc g1 g2, remove-Returns)
