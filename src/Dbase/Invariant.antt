-- ===== src/Dbase/Invariant.antt =====
-- The invariant of the database: the table and the dead list share no record, every record in them
-- is in memory, and a record is found under its own uid.
use cinder_userspace.Base.{
  ℕ, ◌≡◌, ◌≢◌, Bool, true, false, Option, none, some, [], ◌∷◌, arith, Bool-cases, inl, inr, mem,
  mem-append, Distinct, Distinct-snoc,
}
use cinder_userspace.Base.Int.{ℤ}
use cinder_userspace.Os.{
  Ptr, null, Call, Trace, allocated, allocated-null, is_quiet, allocated_quiet, Env,
}
use cinder_userspace.Store.{UidReserveRecord, World, write, logged}

abbrev pub key_of : Option UidReserveRecord → Option ℕ
key_of none = none
key_of (some r) = some r.uid

abbrev pub is_some {ℓ} : {A : Type ℓ} → Option A → Bool
is_some none = false
is_some (some a) = true

module _ {H L : Type 0} (env : Env H L) where
  open env.hash use {find, add, delete, items, well_formed}
  open env.list use {add_tail, entries}

  pub record Inv (w : World H L) : Type 0 where
    pub table : well_formed w.active ≡ true
    pub keyed : (k : ℕ) (p : Ptr) → find w.active k ≡ some p → key_of (w.heap p) ≡ some k
    pub buried : (p : Ptr) → mem p (entries w.dead_list) ≡ true → is_some (w.heap p) ≡ true
    pub apart : (k : ℕ) (p : Ptr) → find w.active k ≡ some p → mem p (entries w.dead_list) ≡ false
    pub distinct : Distinct (entries w.dead_list)
    pub in_memory : (p : Ptr) → allocated p w.trace ≡ false → w.heap p ≡ none

  pub trace-Inv :
      (w : World H L) (t : Trace)
      → ((p : Ptr) → allocated p t ≡ false → w.heap p ≡ none)
      → Inv w
      → Inv (record w { trace = t })
  trace-Inv w t more v = record {
    table = v.table;
    keyed = v.keyed;
    buried = v.buried;
    apart = v.apart;
    distinct = v.distinct;
    in_memory = more;
  }

  pub logged-Inv :
      (w : World H L) (c : Call) (r : ℤ) → is_quiet c ≡ true → Inv w → Inv (logged w c r)
  logged-Inv w c r q v =
      trace-Inv w (record { call = c; ret = r } ∷ w.trace)
        (λ p h.
          v.in_memory p (ground (arith, allocated_quiet p (record { call = c; ret = r }) w.trace)))
        v

  pub heap_null : (w : World H L) → Inv w → w.heap null ≡ none
  heap_null w v = v.in_memory null (allocated-null w.trace)

  -- A record moves from the table to the dead list.
  pub bury-Inv :
      (w : World H L) (k : ℕ) (p : Ptr)
      → find w.active k ≡ some p
      → Inv w
      → Inv (record w { active = delete w.active k p; dead_list = add_tail p w.dead_list })
  bury-Inv w k p e v =
      let out = v.apart k p e in
      record {
        table = env.hash.delete-well_formed w.active k p v.table e;
        keyed = λ j q h. ground (arith, env.hash.find-delete w.active k p j, v.keyed j q, v.table);
        buried = λ q h. ground (
          arith,
          env.list.entries-add_tail p w.dead_list,
          mem-append q (entries w.dead_list) (p ∷ []),
          v.buried q,
          v.keyed k p,
        );
        apart = λ j q h. ground (
          arith,
          env.hash.find-delete w.active k p j,
          env.list.entries-add_tail p w.dead_list,
          mem-append q (entries w.dead_list) (p ∷ []),
          v.keyed k p,
          v.keyed j q,
          v.apart j q,
          v.table,
        );
        distinct =
            rw (env.list.entries-add_tail p w.dead_list out)
              (Distinct-snoc (entries w.dead_list) p v.distinct out);
        in_memory = v.in_memory;
      }

  -- A table holds no record that is not in memory.
  items_out : (w : World H L) (p : Ptr) → Inv w → w.heap p ≡ none → mem p (items w.active) ≡ false
  items_out w p v out = elim (Bool-cases (mem p (items w.active))) [
    | inr e ↦ e
    | inl e ↦
        let (k, f) = env.hash.find_of_mem_items w.active p v.table e in
        ground (arith, v.keyed k p f)
  ]

  -- A new record enters the table under a uid that it does not hold.
  pub enter-Inv :
      (w : World H L) (p : Ptr) (r : UidReserveRecord) (t : Trace)
      → find w.active r.uid ≡ none
      → w.heap p ≡ none
      → ((q : Ptr) → allocated q t ≡ false → (allocated q w.trace ≡ false) × (q ≢ p))
      → Inv w
      → Inv (record {
        active = add w.active r.uid p;
        dead_list = w.dead_list;
        heap = write w.heap p r;
        trace = t;
      })
  enter-Inv w p r t absent out more v = record {
    table = env.hash.add-well_formed w.active r.uid p v.table absent (items_out w p v out);
    keyed = λ j q h. ground (arith, env.hash.find-add w.active r.uid p j, v.keyed j q, v.table);
    buried = λ q h. ground (arith, v.buried q);
    apart = λ j q h. ground (
      arith,
      env.hash.find-add w.active r.uid p j,
      v.keyed j q,
      v.apart j q,
      v.buried p,
      v.table,
    );
    distinct = v.distinct;
    in_memory = λ q h. ground (arith, more q h, v.in_memory q);
  }

  -- A record in memory changes, and keeps its uid.
  pub update-Inv :
      (w : World H L) (p : Ptr) (old r : UidReserveRecord)
      → w.heap p ≡ some old
      → r.uid ≡ old.uid
      → Inv w
      → Inv (record w { heap = write w.heap p r })
  update-Inv w p old r e same v = record {
    table = v.table;
    keyed = λ j q h. ground (arith, v.keyed j q);
    buried = λ q h. ground (arith, v.buried q);
    apart = v.apart;
    distinct = v.distinct;
    in_memory = λ q h. ground (arith, v.in_memory q);
  }
