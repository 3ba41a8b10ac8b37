-- ===== src/Dbase/Add.antt =====
-- reserveDataDBAddEntry of CinderUserspace/PowerArbiter/dbase.c.
use cinder_userspace.Base.{
  ℕ, ◌≡◌, ◌≢◌, refl, true, false, Option, none, some, arith, ◌==◌, ◌∷◌, eq_self, ◌&&◌,
  if◌then◌else◌, Option-cases, Bool-cases, inl, inr,
}
use cinder_userspace.Base.Int.{ℤ, pos, is_zero, eexist}
use cinder_userspace.Os.{
  Ptr, null, dbase_lock, mutex_unlock, Event, Trace, allocated, mutex_lock, Env,
}
use cinder_userspace.Store.{UidReserveData, World, Returns, Returns-bind, write, logged}
use cinder_userspace.Record.{local}
use cinder_userspace.Record.Create.{Created, failed, made, record_create-Created}
use cinder_userspace.Dbase.{add_created, add_entry_locked, add_entry}
use cinder_userspace.Dbase.Invariant.{Inv, trace-Inv, logged-Inv, enter-Inv}
use cinder_userspace.Dbase.View.{entry}

module _ {H L : Type 0} (env : Env H L) where
  open env.hash use {find, add}

  -- What an attempt to add `d` for `uid` does to the map.
  pub record Added (uid : ℕ) (d : UidReserveData) (w : World H L) (err : ℤ) (w' : World H L)
      : Type 0 where
    pub inv : Inv env w'
    pub absent : is_zero err ≡ true → entry env w uid ≡ none
    pub map :
        (k : ℕ) → entry env w' k ≡ (if is_zero err && (uid == k) then some d else entry env w k)
    pub dead_list : w'.dead_list ≡ w.dead_list

  -- A failed attempt leaves the table, the list and the records alone.
  kept-Added :
      (uid : ℕ) (d : UidReserveData) (w : World H L) (err : ℤ) (t : Trace)
      → is_zero err ≡ false
      → Inv env (record w { trace = t })
      → Added uid d w err (record w { trace = t })
  kept-Added uid d w err t e v = record {
    inv = v;
    absent = λ z. cc;
    map = λ k. rw e refl;
    dead_list = refl;
  }

  entered-Added :
      (uid : ℕ) (d : UidReserveData) (w : World H L) (p : Ptr) (t : Trace)
      → find w.active uid ≡ none
      → w.heap p ≡ none
      → ((q : Ptr) → allocated q t ≡ false → (allocated q w.trace ≡ false) × (q ≢ p))
      → Inv env w
      → Added uid d w (pos 0) (record {
        active = add w.active uid p;
        dead_list = w.dead_list;
        heap = write w.heap p (record { reserve_data = d; uid = uid });
        trace = t;
      })
  entered-Added uid d w p t e out more v = record {
    inv = enter-Inv env w p (record { reserve_data = d; uid = uid }) t e out more v;
    absent = λ z. rw e;
    map = λ k. ground (arith, env.hash.find-add w.active uid p k, v.table, key_at k);
    dead_list = refl;
  }
    where
      key_at : (k : ℕ) → find w.active k ≢ some p
      key_at k h = ground (arith, v.keyed k p h)

  -- The part of add_entry_locked behind record_create.
  linked-Added :
      (uid : ℕ) (d : UidReserveData) (w : World H L)
      → find w.active uid ≡ none
      → Inv env w
      → (a : ℤ × Option Ptr) (w' : World H L) → Created env uid d w a w'
      → Returns (Added uid d w) (add_created env a w')
  unfolding add_created
  linked-Added uid d w e v a w' (failed err t bad more) =
      rw bad (kept-Added uid d w err t bad (trace-Inv env w t (λ p h. v.in_memory p (more p h)) v))
  linked-Added uid d w e v a w' (made p t got out more) =
      rw (eq_self p, Returns) (entered-Added uid d w p t e (v.in_memory p out) more v)

  add_entry_locked-Added :
      (uid : ℕ) (d : UidReserveData) (w : World H L)
      → d.reserve_created ≡ false
      → Inv env w
      → Returns (Added uid d w) (add_entry_locked env uid d w)
  unfolding add_entry_locked
  add_entry_locked-Added uid d w fresh v = elim (Option-cases (find w.active uid)) [
    | inr (p, e) ↦ rw e (kept-Added uid d w eexist w.trace refl v)
    | inl e ↦ rw e (
        Returns-bind _ (Created env uid d w) _ _
          (record_create-Created env local uid d w refl fresh) (linked-Added uid d w e v))
  ]

  -- The final unlock is only one more call.
  unlocked-Added :
      (uid : ℕ) (d : UidReserveData) (w : World H L) (lock : Event) (r : ℤ) (err : ℤ)
      (w' : World H L)
      → Added uid d (record w { trace = lock ∷ w.trace }) err w'
      → Added uid d w err (logged w' (mutex_unlock dbase_lock) r)
  unlocked-Added uid d w lock r err w' a = record {
    inv = logged-Inv env w' (mutex_unlock dbase_lock) r refl a.inv;
    absent = a.absent;
    map = a.map;
    dead_list = a.dead_list;
  }

  -- Adding data with no reserve to a database that satisfies the invariant keeps it. It succeeds
  -- only for a uid that is not in the map, which then has the data for it; a failure leaves the map
  -- as it was, and neither changes the dead list.
  pub add_entry-Added :
      (dbase : Ptr) (uid : ℕ) (d : UidReserveData) (w : World H L)
      → (dbase == null) ≡ false
      → d.reserve_created ≡ false
      → Inv env w
      → Returns (Added uid d w) (add_entry env dbase uid (some d) w)
  unfolding add_entry
  add_entry-Added dbase uid d w given fresh v = rw given (
      simp fresh (elim (Bool-cases (is_zero err)) [
        | inr bad ↦ rw bad (kept-Added uid d w err _ bad locked)
        | inl held ↦ rw held (
            Returns-bind _ (Added uid d (logged w (mutex_lock dbase_lock) err)) _ _
              (add_entry_locked-Added uid d (logged w (mutex_lock dbase_lock) err) fresh locked)
              (λ e w' a. unlocked-Added uid d w _ _ e w' a))
      ]))
    where
      err : ℤ
      err = env.result w.trace (mutex_lock dbase_lock)

      locked : Inv env (logged w (mutex_lock dbase_lock) err)
      locked = logged-Inv env w (mutex_lock dbase_lock) err refl v
