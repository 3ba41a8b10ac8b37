-- ===== src/Controller/Stat.antt =====
-- statReserve of CinderUserspace/PowerArbiter/controller.c: its answer, and the record.
use cinder_userspace.Base.{
  ℕ, ◌≡◌, true, false, Option, none, some, arith, ◌==◌, Option-cases, Bool-cases, inl, inr, Bool,
}
use cinder_userspace.Base.Int.{ℤ, is_zero}
use cinder_userspace.Os.{Ptr, null, sys_root_reserve_id, Env}
use cinder_userspace.Store.{World, UidReserveData, Returns}
use cinder_userspace.Context.{PaContext, pa_use_root_reserve, pa_reserve_granted}
use cinder_userspace.Dbase.Invariant.{Inv, heap_null, is_some}
use cinder_userspace.Dbase.View.{entry, params_of}
use cinder_userspace.Controller.{stat_reserve}

abbrev pub created : Option UidReserveData → Bool
created none = false
created (some d) = d.reserve_created

abbrev pub reserve_of : Option UidReserveData → Option (ℤ × ℕ)
reserve_of none = none
reserve_of (some d) = some (d.reserve_id, pa_reserve_granted)

module _ {H L : Type 0} (env : Env H L) (c : PaContext) (uid : ℕ) (task : ℤ) (remote : ℕ)
    (w : World H L) (db : (c.dbase == null) ≡ false) (v : Inv env w) where
  open env.hash use {find}

  -- statReserve, given the invariant, changes the parameters of no uid.
  pub stat_reserve-params :
      (rid flags : Ptr) (k : ℕ)
      → Returns
          (λ a w'. params_of (entry env w' k) ≡ params_of (entry env w k))
          (stat_reserve env (some c) uid task remote rid flags w)
  unfolding stat_reserve
  stat_reserve-params rid flags k = elim (Option-cases (find w.active uid)) [
    | inl e ↦ ground arith
    | inr (p, e) ↦ elim (Option-cases (w.heap p)) [
      | inl out ↦ absurd (ground (arith, v.keyed uid p e))
      | inr (r, here) ↦ elim (Option-cases (find w.active k)) [
        | inl f ↦ ground (arith, heap_null env w v)
        | inr (q, f) ↦ elim (Bool-cases (r.reserve_data.reserve_created)) [
          | inl old ↦ ground (arith, heap_null env w v)
          | inr new ↦ ground (arith, heap_null env w v)
        ]
      ]
    ]
  ]

  -- What the answer says of the entry.
  pub record Answer (a : ℤ × Option (ℤ × ℕ)) (w' : World H L) : Type 0 where
    pub failed : is_zero (a.0) ≡ false → a.1 ≡ none
    pub root :
        entry env w uid ≡ none
        → is_zero (a.0) ≡ true
        → a.1 ≡ some (env.result w.trace sys_root_reserve_id, pa_use_root_reserve)
    pub granted :
        is_some (entry env w uid) ≡ true
        → is_zero (a.0) ≡ true
        → (a.1 ≡ reserve_of (entry env w' uid)) × (created (entry env w' uid) ≡ true)
    pub kept : created (entry env w uid) ≡ true → entry env w' uid ≡ entry env w uid

  -- What statReserve answers, given a database that satisfies its invariant and places to store:
  -- nothing is stored on an error; where the uid is not in the database, a success says to use the
  -- root reserve that the kernel named; where it is, a success grants the reserve that the record
  -- holds afterwards, which was created, and a reserve that was created before is kept.
  pub stat_reserve-Answer :
      (rid flags : Ptr)
      → (rid == null) ≡ false
      → (flags == null) ≡ false
      → Returns Answer (stat_reserve env (some c) uid task remote rid flags w)
  unfolding stat_reserve
  stat_reserve-Answer rid flags g1 g2 = elim (Option-cases (find w.active uid)) [
    | inl e ↦ ground arith
    | inr (p, e) ↦ elim (Option-cases (w.heap p)) [
      | inl out ↦ absurd (ground (arith, v.keyed uid p e))
      | inr (r, here) ↦ elim (Bool-cases (r.reserve_data.reserve_created)) [
        | inl old ↦ ground (arith, heap_null env w v)
        | inr new ↦ ground (arith, heap_null env w v)
      ]
    ]
  ]
