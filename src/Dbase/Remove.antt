-- ===== src/Dbase/Remove.antt =====
-- reserveDataDBRemoveEntry of CinderUserspace/PowerArbiter/dbase.c.
use cinder_userspace.Base.{
  ℕ, ◌≡◌, refl, true, false, none, some, [], ◌∷◌, ◌++◌, arith, ◌==◌, ◌&&◌, if◌then◌else◌,
  Option-cases, Bool-cases, inl, inr,
}
use cinder_userspace.Base.Int.{ℤ, pos, is_zero, enoent}
use cinder_userspace.Os.{Ptr, null, dbase_lock, mutex_lock, mutex_unlock, Event, Trace, Env}
use cinder_userspace.Store.{World, Returns, Returns-bind, logged}
use cinder_userspace.Dbase.{remove_entry_locked, remove_entry}
use cinder_userspace.Dbase.Invariant.{Inv, logged-Inv, bury-Inv}
use cinder_userspace.Dbase.View.{entry}

module _ {H L : Type 0} (env : Env H L) where
  open env.hash use {find, delete}
  open env.list use {entries, add_tail}

  -- What an attempt to remove `uid` does to the map and to the dead list.
  pub record Removed (uid : ℕ) (w : World H L) (err : ℤ) (w' : World H L) : Type 0 where
    pub inv : Inv env w'
    pub map : (k : ℕ) → entry env w' k ≡ (if is_zero err && (uid == k) then none else entry env w k)
    pub heap : w'.heap ≡ w.heap
    pub failed : is_zero err ≡ false → w'.dead_list ≡ w.dead_list
    pub dead :
        is_zero err ≡ true
        → (p : Ptr) × (find w.active uid ≡ some p)
          × (entries w'.dead_list ≡ entries w.dead_list ++ p ∷ [])

  kept-Removed :
      (uid : ℕ) (w : World H L) (err : ℤ) (t : Trace)
      → is_zero err ≡ false
      → Inv env (record w { trace = t })
      → Removed uid w err (record w { trace = t })
  kept-Removed uid w err t e v = record {
    inv = v;
    map = λ k. rw e refl;
    heap = refl;
    failed = λ z. refl;
    dead = λ z. cc;
  }

  buried-Removed :
      (uid : ℕ) (w : World H L) (p : Ptr)
      → find w.active uid ≡ some p
      → Inv env w
      → Removed uid w
          (pos 0)
          (record w { active = delete w.active uid p; dead_list = add_tail p w.dead_list })
  buried-Removed uid w p e v = record {
    inv = bury-Inv env w uid p e v;
    map = λ k. ground (arith, env.hash.find-delete w.active uid p k, v.table);
    heap = refl;
    failed = λ z. cc;
    dead = λ z. (p, e, env.list.entries-add_tail p w.dead_list (v.apart uid p e));
  }

  remove_entry_locked-Removed :
      (uid : ℕ) (w : World H L)
      → Inv env w
      → Returns (Removed uid w) (remove_entry_locked env uid w)
  unfolding remove_entry_locked
  remove_entry_locked-Removed uid w v = elim (Option-cases (find w.active uid)) [
    | inl e ↦ rw e (kept-Removed uid w enoent w.trace refl v)
    | inr (p, e) ↦ elim (Option-cases (w.heap p)) [
      | inl out ↦ absurd (ground (arith, v.keyed uid p e))
      | inr (r, here) ↦
          let own : r.uid ≡ uid = ground (arith, v.keyed uid p e) in
          rw e (rw (here, Returns) (rw own (buried-Removed uid w p e v)))
    ]
  ]

  unlocked-Removed :
      (uid : ℕ) (w : World H L) (lock : Event) (r : ℤ) (err : ℤ) (w' : World H L)
      → Removed uid (record w { trace = lock ∷ w.trace }) err w'
      → Removed uid w err (logged w' (mutex_unlock dbase_lock) r)
  unlocked-Removed uid w lock r err w' a = record {
    inv = logged-Inv env w' (mutex_unlock dbase_lock) r refl a.inv;
    map = a.map;
    heap = a.heap;
    failed = a.failed;
    dead = a.dead;
  }

  -- Removing from a database that satisfies the invariant keeps it. It succeeds only for a uid that
  -- is in the map, which loses just that uid, and its record becomes the last of the dead list; a
  -- failure changes nothing of the map, the records or the dead list.
  pub remove_entry-Removed :
      (dbase : Ptr) (uid : ℕ) (w : World H L)
      → (dbase == null) ≡ false
      → Inv env w
      → Returns (Removed uid w) (remove_entry env dbase uid w)
  unfolding remove_entry
  remove_entry-Removed dbase uid w given v = rw given (elim (Bool-cases (is_zero err)) [
    | inr bad ↦ rw bad (kept-Removed uid w err _ bad locked)
    | inl held ↦ rw held (
        Returns-bind _ (Removed uid (logged w (mutex_lock dbase_lock) err)) _ _
          (remove_entry_locked-Removed uid (logged w (mutex_lock dbase_lock) err) locked)
          (λ e w' a. unlocked-Removed uid w _ _ e w' a))
  ])
    where
      err : ℤ
      err = env.result w.trace (mutex_lock dbase_lock)

      locked : Inv env (logged w (mutex_lock dbase_lock) err)
      locked = logged-Inv env w (mutex_lock dbase_lock) err refl v
