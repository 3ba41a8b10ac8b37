-- ===== src/Record/Create.antt =====
-- reserveRecordCreate of CinderUserspace/PowerArbiter/dbase.c.
use cinder_userspace.Base.{
  ℕ, ◌≡◌, ◌≢◌, refl, false, Option, none, some, arith, ◌==◌, Bool-cases, inl, inr, ◌∷◌,
}
use cinder_userspace.Base.Int.{ℤ, pos, pos_part, is_zero, enomem}
use cinder_userspace.Os.{
  Ptr, null, data_lock, allocated, allocated-null, mutex_init, malloc, Env, Trace,
}
use cinder_userspace.Store.{UidReserveData, World, Returns, write}
use cinder_userspace.Record.{record_create}

module _ {H L : Type 0} (env : Env H L) where
  -- How an attempt to create a record ends: it fails and leaves nothing behind, or a record with
  -- the data is at an address where no object was.
  pub data Created (uid : ℕ) (d : UidReserveData) (w : World H L)
      : ℤ × Option Ptr → World H L → Type 0 where
    failed :
        (err : ℤ) (t : Trace)
        → is_zero err ≡ false
        → ((q : Ptr) → allocated q t ≡ false → allocated q w.trace ≡ false)
        → Created uid d w (err, none) (record w { trace = t })
    made :
        (p : Ptr) (t : Trace)
        → (p == null) ≡ false
        → allocated p w.trace ≡ false
        → ((q : Ptr) → allocated q t ≡ false → (allocated q w.trace ≡ false) × (q ≢ p))
        → Created uid d w
            (pos 0, some p)
            (record w { heap = write w.heap p (record { reserve_data = d; uid = uid }); trace = t })

  pub record_create-Created :
      (loc : Ptr) (uid : ℕ) (d : UidReserveData) (w : World H L)
      → (loc == null) ≡ false
      → d.reserve_created ≡ false
      → Returns (Created uid d w) (record_create env loc uid (some d) w)
  unfolding record_create allocated
  record_create-Created loc uid d w given fresh = rw given (
      simp fresh (elim (Bool-cases (p == null)) [
        | inl out ↦ rw out (failed enomem _ refl (λ q h. ground (arith, allocated-null w.trace)))
        | inr got ↦ rw got (elim (Bool-cases (is_zero err)) [
          | inl set ↦ rw set (
              made p _ got (env.malloc_fresh w.trace)
                (λ q h. ground (arith, allocated-null w.trace)))
          | inr bad ↦ rw bad (failed err _ bad (λ q h. ground (arith, env.malloc_fresh w.trace)))
        ])
      ]))
    where
      address : ℤ
      address = env.result w.trace malloc

      p : Ptr
      p = pos_part address

      err : ℤ
      err =
          env.result (record { call = malloc; ret = address } ∷ w.trace) (mutex_init (data_lock p))
