-- ===== src/Dbase/Clear.antt =====
-- reserveDataDBClearUnused of CinderUserspace/PowerArbiter/dbase.c, the pass of the reaper over the
-- dead list.
pub mod Passes
use cinder_userspace.Base.{
  ◌+◌, ◌≤◌, ◌≡◌, refl, true, false, List, [], ◌∷◌, none, some, arith, ◌==◌, mem, Option-cases,
  Bool-cases, inl, inr, ◌∙◌,
}
use cinder_userspace.Base.Int.{ℤ, pos, is_zero, is_pos}
use cinder_userspace.Os.{
  Ptr, null, Mutex, mutex_lock, dbase_lock, sys_reserve_info, Trace, Env, allocated,
}
use cinder_userspace.Os.Ledger.{puts, locked}
use cinder_userspace.Store.{UidReserveRecord, World, Returns, Returns-bind, Returns-mono, logged}
use cinder_userspace.Record.{record_destroy}
use cinder_userspace.Dbase.{clear_unused_round, clear_unused_loop, clear_unused}
use cinder_userspace.Dbase.Invariant.{Inv, heap_null, is_some}

module _ {H L : Type 0} (env : Env H L) where
  open env.list use {entries}

  -- A pass leaves the database as it is; `id` is a reserve, `m` a mutex, `q` an address.
  pub record Passed (id : ℤ) (m : Mutex) (q : Ptr) (w w' : World H L) : Type 0 where
    pub active : w'.active ≡ w.active
    pub dead_list : w'.dead_list ≡ w.dead_list
    pub heap : w'.heap ≡ w.heap
    pub more : puts id w.trace ≤ puts id w'.trace
    pub lock : locked m w'.trace ≡ locked m w.trace
    pub memory : allocated q w'.trace ≡ allocated q w.trace

  Passed-refl : (id : ℤ) (m : Mutex) (q : Ptr) (w : World H L) → Passed id m q w w
  Passed-refl id m q w = record {
    active = refl;
    dead_list = refl;
    heap = refl;
    more = omega arith;
    lock = refl;
    memory = refl;
  }

  Passed-trans :
      (id : ℤ) (m : Mutex) (q : Ptr) (u v w : World H L)
      → Passed id m q u v
      → Passed id m q v w
      → Passed id m q u w
  Passed-trans id m q u v w a b = record {
    active = b.active ∙ a.active;
    dead_list = b.dead_list ∙ a.dead_list;
    heap = b.heap ∙ a.heap;
    more = omega (arith, a.more, b.more);
    lock = b.lock ∙ a.lock;
    memory = b.memory ∙ a.memory;
  }

  -- What the kernel answers: a reserve that it still knows has a user.
  module _ (used : (t : Trace) (id : ℤ) → is_pos (env.num_users t id) ≡ true) (id : ℤ) where
    module _ (m : Mutex) (q : Ptr) where
      pub round-Passed :
          (err : ℤ) (p : Ptr) (r : UidReserveRecord) (w : World H L)
          → (p == null) ≡ false
          → w.heap p ≡ some r
          → Returns (λ e. Passed id m q w) (clear_unused_round env err p w)
      unfolding clear_unused_round record_destroy puts locked allocated
      round-Passed err p r w here known = ground (arith, used w.trace r.reserve_data.reserve_id)

      pub loop-Passed :
          (err : ℤ) (ps : List Ptr) (w : World H L)
          → w.heap null ≡ none
          → ((p : Ptr) → mem p ps ≡ true → is_some (w.heap p) ≡ true)
          → Returns (λ e. Passed id m q w) (clear_unused_loop env err ps w)
      unfolding clear_unused_loop
      loop-Passed err [] w z known = Passed-refl id m q w
      loop-Passed err (p ∷ ps) w z known = elim (Option-cases (w.heap p)) [
        | inl out ↦ absurd (ground (arith, known p))
        | inr (r, here) ↦
            Returns-bind _ (λ e. Passed id m q w) _ _ (round-Passed err p r w (ground arith) here)
              (λ e w' s.
                Returns-mono (λ e. Passed id m q w') _ _
                  (loop-Passed e ps w' (ground (arith, s.heap))
                    (λ x h. ground (arith, s.heap, known x)))
                  (λ e' w'' s'. Passed-trans id m q w w' w'' s s'))
      ]

      -- A pass of the reaper over a database that satisfies the invariant and is not locked, where
      -- the kernel reports a positive number of users for every reserve: it ends, changes neither
      -- the table nor the dead list nor a record, never lowers the number of puts, keeps no lock
      -- that it takes, and reports an empty dead list only if it is empty.
      pub clear_unused-Passed :
          (dbase loc : Ptr) (w : World H L)
          → (dbase == null) ≡ false
          → (loc == null) ≡ false
          → locked m w.trace ≡ false
          → Inv env w
          → Returns
              (λ a w'. Passed id m q w w' × (a.1 ≡ some (pos 1) → entries w.dead_list ≡ []))
              (clear_unused env dbase loc w)
      unfolding clear_unused puts locked allocated
      clear_unused-Passed dbase loc w g1 g2 free v =
          rw (g1, g2)
            (elim (Bool-cases (is_zero err)) [
              | inr bad ↦ rw bad (ground arith)
              | inl held ↦ rw held (
                  Returns-bind _ (λ e. Passed id m q locked_world) _ _
                    (loop-Passed err (entries w.dead_list) locked_world (heap_null env w v)
                      v.buried)
                    (λ e w' s. (
                      ground (arith, s, free),
                      λ h. ground (arith, s.dead_list, env.list.is_empty-entries w'.dead_list),
                    )))
            ])
        where
          err : ℤ
          err = env.result w.trace (mutex_lock dbase_lock)

          locked_world : World H L
          locked_world = logged w (mutex_lock dbase_lock) err
