-- ===== src/Controller/Add.antt =====
-- addReserveParamsForUID of CinderUserspace/PowerArbiter/controller.c.
use cinder_userspace.Base.{
  ℕ, ◌≡◌, refl, ◌||◌, ◌&&◌, if◌then◌else◌, true, false, none, some, Option, arith, ◌==◌, Bool-cases,
  inl, inr,
}
use cinder_userspace.Base.Int.{ℤ, is_zero, einval}
use cinder_userspace.Os.{Ptr, null, Env}
use cinder_userspace.Store.{UidReserveData, World, Returns, Returns-bind}
use cinder_userspace.Context.{PaContext}
use cinder_userspace.Dbase.{add_entry}
use cinder_userspace.Dbase.Invariant.{Inv, is_some}
use cinder_userspace.Dbase.View.{entry, params_of}
use cinder_userspace.Dbase.Add.{Added, add_entry-Added}
use cinder_userspace.Controller.{add_reserve_params_for_uid, bad_type_or_sign, bad_share}

module _ {H L : Type 0} (env : Env H L) (uid tap_type : ℕ) (tap_value : ℤ) (w : World H L) where
  -- What the request did to the parameters of each uid.
  pub record Accepted (a : ℤ × Option ℕ) (w' : World H L) : Type 0 where
    pub inv : Inv env w'
    pub absent : is_zero (a.0) ≡ true → entry env w uid ≡ none
    pub valid :
        is_zero (a.0) ≡ true
        → (bad_type_or_sign tap_type tap_value || bad_share tap_type tap_value) ≡ false
    pub params :
        (k : ℕ)
        → params_of (entry env w' k) ≡ (
            if is_zero (a.0) && (uid == k)
            then some (tap_type, tap_value)
            else params_of (entry env w k))
    pub kept : (k : ℕ) → is_some (entry env w k) ≡ true → entry env w' k ≡ entry env w k

module _ {H L : Type 0} (env : Env H L) (c : PaContext) (uid : ℕ) (task : ℤ) (remote : ℕ)
    (tap_type : ℕ) (tap_value : ℤ) (w : World H L) (db : (c.dbase == null) ≡ false)
    (v : Inv env w) where
  refused : (out : Option ℕ) → Accepted env uid tap_type tap_value w (einval, out) w
  refused out = record {
    inv = v;
    absent = λ z. cc;
    valid = λ z. cc;
    params = λ k. refl;
    kept = λ k h. refl;
  }

  -- The data of the record that is added.
  d : UidReserveData
  d = record {
    reserve_created = false;
    reserve_id = env.indeterminate w.trace 0;
    tap_id = env.indeterminate w.trace 1;
    tap_type = tap_type;
    tap_value = tap_value;
  }

  accepted :
      (err : ℤ) (out : Option ℕ) (w' : World H L)
      → bad_type_or_sign tap_type tap_value ≡ false
      → bad_share tap_type tap_value ≡ false
      → Added env uid d w err w'
      → Accepted env uid tap_type tap_value w (err, out) w'
  unfolding d
  accepted err out w' e e' a = record {
    inv = a.inv;
    absent = a.absent;
    valid = λ z. ground arith;
    params = λ k. ground (arith, a.map k);
    kept = λ k h. elim (Bool-cases (is_zero err && (uid == k))) [
      | inl e ↦ absurd (ground (arith, e, h, a.absent))
      | inr e ↦ ground (arith, e, a.map k)
    ];
  }

  -- addReserveParamsForUID keeps the invariant. It returns 0 only for valid parameters and a uid
  -- that is not in the database, and then the map from uids to parameters has that one more entry;
  -- where it fails the map is as before. Every entry that was there stays.
  pub add-Accepted :
      (loc : Ptr)
      → Returns
          (Accepted env uid tap_type tap_value w)
          (add_reserve_params_for_uid env (some c) uid task remote tap_type tap_value loc w)
  unfolding add_reserve_params_for_uid d
  add-Accepted loc = elim (Bool-cases (loc == null)) [
    | inl e ↦ rw (e, Returns) (refused _)
    | inr e ↦
        rw (e, Returns)
          (elim (Bool-cases (bad_type_or_sign tap_type tap_value)) [
            | inl e ↦ rw (e, Returns) (refused _)
            | inr e' ↦
                rw (e', Returns)
                  (elim (Bool-cases (bad_share tap_type tap_value)) [
                    | inl e ↦ rw (e, Returns) (refused _)
                    | inr e ↦
                        rw (e, Returns)
                          (Returns-bind (Accepted env uid tap_type tap_value w) (Added env uid d w)
                            (add_entry env c.dbase uid (some d) w) _
                            (add_entry-Added env c.dbase uid d w db refl v)
                            (λ err w' a. accepted err _ w' e' e a))
                  ])
          ])
  ]
