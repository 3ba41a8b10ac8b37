-- ===== src/Dbase.antt =====
-- CinderUserspace/PowerArbiter/dbase.c: the database of the records by uid.
pub mod Invariant
pub mod View
pub mod Steady
pub mod Add
pub mod Remove
pub mod Clear
use cinder_userspace.Base.{ℕ, not, ◌||◌, List, [], ◌∷◌, Option, none, some, ◌==◌, if◌then◌else◌}
use cinder_userspace.Base.Int.{
  ℤ, pos, pos_part, nonzero, is_pos, eq_ℤ, enoent, enomem, eexist, einval, enosys,
}
use cinder_userspace.Os.{
  Ptr, null, dbase_lock, mutex_init, mutex_lock, mutex_unlock, mutex_destroy, malloc, free, Env,
}
use cinder_userspace.Store.{
  UidReserveData, ok, Cmd, pure, ◌>>=◌, ◌>>◌, assert, gets, load, perform, perform_,
}
use cinder_userspace.Syscall.{cinder_get_num_reserve_users}
use cinder_userspace.Record.{local, stored, record_create, record_destroy}

module _ {H L : Type 0} (env : Env H L) where
  open env.hash use {empty as empty_table, find, add, delete, items, is_null}
  open env.list use {init, add_tail, is_empty, entries}

  -- HASH_FIND, HASH_ADD by the record's uid, HASH_DEL
  unfoldable pub hash_find : ℕ → Cmd H L (Option Ptr)
  hash_find uid = gets (λ w. find w.active uid)

  unfoldable pub hash_add : Ptr → Cmd H L (Unit {0})
  hash_add p = do r ← load p; λ w. ok tt (record w { active = add w.active r.uid p })

  unfoldable pub hash_delete : Ptr → Cmd H L (Unit {0})
  hash_delete p = do r ← load p; λ w. ok tt (record w { active = delete w.active r.uid p })

  unfoldable pub list_add_tail : Ptr → Cmd H L (Unit {0})
  list_add_tail p w = ok tt (record w { dead_list = add_tail p w.dead_list })

  unfoldable pub read_lock : Ptr → Cmd H L ℤ
  read_lock dbase = if dbase == null then pure einval else perform env (mutex_lock dbase_lock)

  unfoldable pub unlock : Ptr → Cmd H L ℤ
  unlock dbase = if dbase == null then pure einval else perform env (mutex_unlock dbase_lock)

  -- The error, and the record stored at `data_loc`.
  unfoldable pub lookup_entry_locked : Ptr → ℕ → Ptr → Cmd H L (ℤ × Option Ptr)
  unfolding hash_find
  lookup_entry_locked dbase uid data_loc =
      if (dbase == null) || (data_loc == null) then pure (einval, none) else do
        found ← hash_find uid
        elim found [ none ↦ pure (enoent, none) | some p ↦ pure (pos 0, some p) ]

  -- From the test of the record's creation up to the label `out`.
  add_created : ℤ × Option Ptr → Cmd H L ℤ
  unfolding hash_add
  add_created (err, created) =
      if nonzero err then pure err else do hash_add (stored created null); pure err

  -- From the check that the entry is absent up to the label `out`.
  add_entry_locked : ℕ → UidReserveData → Cmd H L ℤ
  unfolding hash_find add_created record_create
  add_entry_locked uid rsv_data = do
    found ← hash_find uid
    elim found [
      | some _ ↦ pure eexist
      | none ↦ do created ← record_create env local uid (some rsv_data); add_created created
    ]

  unfoldable pub add_entry : Ptr → ℕ → Option UidReserveData → Cmd H L ℤ
  unfolding add_entry_locked
  add_entry dbase uid none = pure einval
  add_entry dbase uid (some rsv_data) = if dbase == null then pure einval else do
    assert (not rsv_data.reserve_created)
    err ← perform env (mutex_lock dbase_lock)
    if nonzero err then pure err else do
      err ← add_entry_locked uid rsv_data
      perform_ env (mutex_unlock dbase_lock)
      pure err

  -- From the check that the entry is present up to the label `out`.
  remove_entry_locked : ℕ → Cmd H L ℤ
  unfolding hash_find hash_delete list_add_tail
  remove_entry_locked uid = do
    found ← hash_find uid
    elim found [ none ↦ pure enoent | some p ↦ do hash_delete p; list_add_tail p; pure (pos 0) ]

  unfoldable pub remove_entry : Ptr → ℕ → Cmd H L ℤ
  unfolding remove_entry_locked
  remove_entry dbase uid = if dbase == null then pure einval else do
    err ← perform env (mutex_lock dbase_lock)
    if nonzero err
        then pure err
        else do err ← remove_entry_locked uid; perform_ env (mutex_unlock dbase_lock); pure err

  -- One round of the loop over the dead list; the argument and the result are `err`.
  unfoldable pub clear_unused_round : ℤ → Ptr → Cmd H L ℤ
  unfolding record_destroy cinder_get_num_reserve_users
  clear_unused_round err p = do
    r ← load p
    if not r.reserve_data.reserve_created then (do _ ← record_destroy env p; pure err) else do
      (err, reported) ← cinder_get_num_reserve_users env r.reserve_data.reserve_id local
      elim reported [
        | none ↦ pure err
        | some num_users ↦ do
          assert (is_pos num_users)
          if eq_ℤ num_users (pos 1) then (do _ ← record_destroy env p; pure err) else pure err
      ]

  unfoldable pub clear_unused_loop : ℤ → List Ptr → Cmd H L ℤ
  unfolding clear_unused_round
  clear_unused_loop err [] = pure err
  clear_unused_loop err (p ∷ ps) = do err ← clear_unused_round err p; clear_unused_loop err ps

  -- The error, and what is stored at `is_empty`.
  unfoldable pub clear_unused : Ptr → Ptr → Cmd H L (ℤ × Option ℤ)
  unfolding clear_unused_loop
  clear_unused dbase is_empty_loc =
      if (dbase == null) || (is_empty_loc == null) then pure (einval, none) else do
        err ← perform env (mutex_lock dbase_lock)
        if nonzero err then pure (err, none) else do
          dead ← gets (λ w. entries w.dead_list)
          err ← clear_unused_loop err dead
          none_left ← gets (λ w. is_empty w.dead_list)
          perform_ env (mutex_unlock dbase_lock)
          pure (err, some (if none_left then pos 1 else pos 0))

  -- The error, and the database stored at `dbase_loc`.
  unfoldable pub create_empty : Ptr → Cmd H L (ℤ × Option Ptr)
  create_empty dbase_loc = if dbase_loc == null then pure (einval, none) else do
    address ← perform env malloc
    let dbase = pos_part address
    if dbase == null then pure (enomem, none) else do
      λ w. ok tt (record w { active = empty_table; dead_list = init })
      err ← perform env (mutex_init dbase_lock)
      if nonzero err
          then (do perform_ env (free dbase); pure (err, none))
          else pure (err, some dbase)

  unfoldable pub empty_loop : List Ptr → Cmd H L (Unit {0})
  unfolding hash_delete list_add_tail
  empty_loop [] = pure tt
  empty_loop (p ∷ ps) = do hash_delete p; list_add_tail p; empty_loop ps

  -- reserveDataDBEmpty
  unfoldable pub empty : Ptr → Cmd H L ℤ
  unfolding empty_loop
  empty dbase =
      if dbase == null
      then pure einval
      else do visited ← gets (λ w. items w.active); empty_loop visited; pure (pos 0)

  -- reserveDataDBDestroy; the two assertions fail outright.
  unfoldable pub destroy : Ptr → Cmd H L ℤ
  destroy dbase = if dbase == null then pure einval else do
    no_active ← gets (λ w. is_null w.active)
    assert no_active
    no_dead ← gets (λ w. is_empty w.dead_list)
    assert no_dead
    perform_ env (mutex_destroy dbase_lock)
    pure (pos 0)

-- Not implemented in the C code.
unfoldable pub populate_from_file : (dbase file : Ptr) → ℤ
populate_from_file dbase file = enosys

unfoldable pub write_to_file : (file : Ptr) → ℤ
write_to_file file = enosys
