-- ===== src/Controller.antt =====
-- CinderUserspace/PowerArbiter/controller.c: the five requests of a client. What a function stores
-- through its pointers is in its result, behind the error.
pub mod Get
pub mod Set
pub mod Stat
pub mod Ledger
pub mod Locks
pub mod Silent
pub mod Safe
pub mod Success
pub mod Add
pub mod Steady
pub mod Names
use cinder_userspace.Base.{
  ℕ, ◌+◌, ◌-◌, Bool, true, false, not, ◌||◌, ◌&&◌, List, ◌++◌, Option, none, some, ◌==◌,
  if◌then◌else◌, length, take,
}
use cinder_userspace.Base.Int.{ℤ, pos, nonzero, is_neg, eq_ℤ, above_100, enoent, einval}
use cinder_userspace.Base.Text.{codes, format_d, to_long}
use cinder_userspace.Os.{Ptr, null, Env}
use cinder_userspace.Store.{Cmd, pure, ◌>>=◌, ◌>>◌, assert, gets, load, store}
use cinder_userspace.Syscall.{
  cinder_max_namelen, cinder_cap_all, cinder_tap_rate_constant, cinder_tap_rate_proportional,
  cinder_create_reserve, cinder_create_tap, cinder_tap_set_rate, cinder_put_reserve,
  cinder_delete_tap, cinder_expose_reserve, cinder_get_root_reserve_id,
}
use cinder_userspace.Record.{local, stored, record_lock, record_unlock}
use cinder_userspace.Dbase.{read_lock, unlock, lookup_entry_locked, add_entry, remove_entry}
use cinder_userspace.Context.{
  PaContext, dbase_of, pa_invalid_input, pa_reserve_granted, pa_use_root_reserve,
}

abbrev pub is_none {ℓ} : {A : Type ℓ} → Option A → Bool
is_none none = true
is_none (some a) = false

-- snprintf of "%d_User_Reserve" and of "%d_User_Tap"
unfoldable pub rsv_name : ℕ → List ℕ
unfolding format_d
rsv_name uid = take (cinder_max_namelen - 1) (format_d uid ++ codes "_User_Reserve")

unfoldable pub tap_name : ℕ → List ℕ
unfolding format_d
tap_name uid = take (cinder_max_namelen - 1) (format_d uid ++ codes "_User_Tap")

-- The two tests of the parameters of a tap.
abbrev pub bad_type_or_sign : ℕ → ℤ → Bool
bad_type_or_sign tap_type tap_value =
    (not (tap_type == cinder_tap_rate_constant) && not (tap_type == cinder_tap_rate_proportional))
    || is_neg tap_value

abbrev pub bad_share : ℕ → ℤ → Bool
bad_share tap_type tap_value = (tap_type == cinder_tap_rate_proportional) && above_100 tap_value

module _ {H L : Type 0} (env : Env H L) where
  -- The reserve and the tap of a record that has none; the result is the error.
  create_for : (uid : ℕ) (p : Ptr) (root_reserve_id : ℤ) → Cmd H L ℤ
  unfolding cinder_create_reserve cinder_create_tap cinder_tap_set_rate cinder_put_reserve
      cinder_delete_tap
  create_for uid p root_reserve_id = do
    new_reserve_id ← cinder_create_reserve env (rsv_name uid) (length (rsv_name uid) + 1)
    if is_neg new_reserve_id then pure new_reserve_id else do
      new_tap_id ←
          cinder_create_tap env (tap_name uid) (length (tap_name uid) + 1) root_reserve_id
            new_reserve_id
      if is_neg new_tap_id
          then (do _ ← cinder_put_reserve env new_reserve_id; pure new_tap_id)
          else do
            r ← load p
            err ←
                cinder_tap_set_rate env new_tap_id (to_long (pos r.reserve_data.tap_type))
                  (to_long r.reserve_data.tap_value)
            if nonzero err
                then (do
                  _ ← cinder_delete_tap env new_tap_id
                  _ ← cinder_put_reserve env new_reserve_id
                  pure err)
                else do
                  store p (record r {
                    reserve_data = record (r.reserve_data) {
                      reserve_created = true;
                      reserve_id = new_reserve_id;
                      tap_id = new_tap_id;
                    };
                  })
                  pure (pos 0)

  -- From the creation of the reserve up to the label `record_unlock`.
  stat_record :
      (uid : ℕ) (remote_task : ℤ) (p : Ptr) (root_reserve_id : ℤ) → Cmd H L (ℤ × Option (ℤ × ℕ))
  unfolding create_for cinder_expose_reserve
  stat_record uid remote_task p root_reserve_id = do
    r ← load p
    err ← if r.reserve_data.reserve_created then pure (pos 0) else create_for uid p root_reserve_id
    if nonzero err then pure (err, none) else do
      r ← load p
      err ← cinder_expose_reserve env remote_task r.reserve_data.reserve_id cinder_cap_all
      if nonzero err
          then pure (err, none)
          else pure (pos 0, some (r.reserve_data.reserve_id, pa_reserve_granted))

  -- From the lookup up to the label `out_unlock`.
  stat_locked :
      (dbase : Ptr) (uid : ℕ) (remote_task root_reserve_id : ℤ) → Cmd H L (ℤ × Option (ℤ × ℕ))
  unfolding lookup_entry_locked record_lock record_unlock stat_record
  stat_locked dbase uid remote_task root_reserve_id = do
    (err, found) ← lookup_entry_locked env dbase uid local
    if nonzero err && not (eq_ℤ err enoent)
        then pure (err, none)
        else if eq_ℤ err enoent
        then pure (pos 0, some (root_reserve_id, pa_use_root_reserve))
        else do
          let p = stored found null
          assert (not (p == null))
          err ← record_lock env p
          if nonzero err then pure (err, none) else do
            out ← stat_record uid remote_task p root_reserve_id
            _ ← record_unlock env p
            pure out

  -- The error, and what is stored at `rid` and `flags`.
  unfoldable pub stat_reserve :
      (progctx : Option PaContext) (uid : ℕ) (remote_task : ℤ) (remote_uid : ℕ) (rid flags : Ptr)
      → Cmd H L (ℤ × Option (ℤ × ℕ))
  unfolding cinder_get_root_reserve_id read_lock unlock stat_locked
  stat_reserve progctx uid remote_task remote_uid rid flags = do
    dbase ← dbase_of progctx
    if is_none progctx || (rid == null) || (flags == null) then pure (einval, none) else do
      unset ← gets (λ w. env.indeterminate w.trace 0)
      (err, root) ← cinder_get_root_reserve_id env local
      if nonzero err then pure (err, none) else do
        err ← read_lock env dbase
        if nonzero err then pure (err, none) else do
          out ← stat_locked dbase uid remote_task (stored root unset)
          _ ← unlock env dbase
          pure out

  -- From the lookup up to the label `out_unlock`.
  get_locked : (dbase : Ptr) (uid : ℕ) → Cmd H L (ℤ × Option (ℕ × ℤ))
  unfolding lookup_entry_locked record_lock record_unlock
  get_locked dbase uid = do
    (err, found) ← lookup_entry_locked env dbase uid local
    if nonzero err then pure (err, none) else do
      let p = stored found null
      assert (not (p == null))
      err ← record_lock env p
      if nonzero err then pure (err, none) else do
        r ← load p
        _ ← record_unlock env p
        pure (pos 0, some (r.reserve_data.tap_type, r.reserve_data.tap_value))

  -- The error, and what is stored at `tap_type` and `tap_value`.
  unfoldable pub get_tap_params :
      (progctx : Option PaContext) (uid : ℕ) (remote_task : ℤ) (remote_uid : ℕ)
      (tap_type tap_value : Ptr)
      → Cmd H L (ℤ × Option (ℕ × ℤ))
  unfolding read_lock unlock get_locked
  get_tap_params progctx uid remote_task remote_uid tap_type tap_value = do
    dbase ← dbase_of progctx
    if is_none progctx || (tap_type == null) || (tap_value == null) then pure (einval, none) else do
      err ← read_lock env dbase
      if nonzero err
          then pure (err, none)
          else do out ← get_locked dbase uid; _ ← unlock env dbase; pure out

  -- From the test of `reserve_created` up to the label `record_unlock`.
  set_record : (p : Ptr) (tap_type : ℕ) (tap_value : ℤ) → Cmd H L ℤ
  unfolding cinder_tap_set_rate
  set_record p tap_type tap_value = do
    r ← load p
    err ←
        if r.reserve_data.reserve_created
        then cinder_tap_set_rate env r.reserve_data.tap_id (to_long (pos tap_type))
            (to_long tap_value)
        else pure (pos 0)
    if nonzero err then pure err else do
      store p (record r {
        reserve_data = record (r.reserve_data) { tap_type = tap_type; tap_value = tap_value };
      })
      pure err

  -- From the lookup up to the label `out_unlock`.
  set_locked : (dbase : Ptr) (uid : ℕ) (tap_type : ℕ) (tap_value : ℤ) → Cmd H L ℤ
  unfolding lookup_entry_locked record_lock record_unlock set_record
  set_locked dbase uid tap_type tap_value = do
    (err, found) ← lookup_entry_locked env dbase uid local
    if nonzero err then pure err else do
      let p = stored found null
      assert (not (p == null))
      err ← record_lock env p
      if nonzero err
          then pure err
          else do err ← set_record p tap_type tap_value; _ ← record_unlock env p; pure err

  -- The error, and what is stored at `error`.
  unfoldable pub set_tap_params :
      (progctx : Option PaContext) (uid : ℕ) (remote_task : ℤ) (remote_uid : ℕ) (tap_type : ℕ)
      (tap_value : ℤ) (error : Ptr)
      → Cmd H L (ℤ × Option ℕ)
  unfolding read_lock unlock set_locked
  set_tap_params progctx uid remote_task remote_uid tap_type tap_value error = do
    dbase ← dbase_of progctx
    if is_none progctx || (error == null)
        then pure (einval, none)
        else if bad_type_or_sign tap_type tap_value
        then pure (einval, some pa_invalid_input)
        else if bad_share tap_type tap_value
        then pure (einval, some pa_invalid_input)
        else do
          err ← read_lock env dbase
          if nonzero err then pure (err, some 0) else do
            err ← set_locked dbase uid tap_type tap_value
            _ ← unlock env dbase
            pure (err, some 0)

  -- The error, and what is stored at `error`. `reserve_id` and `tap_id` are not initialised.
  unfoldable pub add_reserve_params_for_uid :
      (progctx : Option PaContext) (uid : ℕ) (remote_task : ℤ) (remote_uid : ℕ) (tap_type : ℕ)
      (tap_value : ℤ) (error : Ptr)
      → Cmd H L (ℤ × Option ℕ)
  add_reserve_params_for_uid none uid remote_task remote_uid tap_type tap_value error =
      pure (einval, none)
  add_reserve_params_for_uid (some progctx) uid remote_task remote_uid tap_type tap_value error =
      if error == null
      then pure (einval, none)
      else if bad_type_or_sign tap_type tap_value
      then pure (einval, some pa_invalid_input)
      else if bad_share tap_type tap_value
      then pure (einval, some pa_invalid_input)
      else do
        unset_reserve ← gets (λ w. env.indeterminate w.trace 0)
        unset_tap ← gets (λ w. env.indeterminate w.trace 1)
        err ← add_entry env progctx.dbase uid (
            some (record {
              reserve_created = false;
              reserve_id = unset_reserve;
              tap_id = unset_tap;
              tap_type = tap_type;
              tap_value = tap_value;
            }))
        pure (err, some 0)

  unfoldable pub remove_reserve_params_for_uid :
      (progctx : Option PaContext) (uid : ℕ) (remote_task : ℤ) (remote_uid : ℕ) → Cmd H L ℤ
  remove_reserve_params_for_uid none uid remote_task remote_uid = pure einval
  remove_reserve_params_for_uid (some progctx) uid remote_task remote_uid =
      remove_entry env progctx.dbase uid
