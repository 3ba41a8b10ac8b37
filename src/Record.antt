-- ===== src/Record.antt =====
-- CinderUserspace/PowerArbiter/dbase.c: the records of the database, their creation, their
-- destruction and their locks. A pointer argument that the C code tests is an address. What a
-- function stores through a pointer is in its result, as an option: `none` means nothing.
pub mod Create
use cinder_userspace.Base.{ℕ, not, Option, none, some, ◌==◌, if◌then◌else◌}
use cinder_userspace.Base.Int.{ℤ, pos, pos_part, nonzero, enomem, einval}
use cinder_userspace.Os.{
  Ptr, null, data_lock, mutex_init, mutex_lock, mutex_unlock, mutex_destroy, malloc, free, Env,
}
use cinder_userspace.Store.{
  UidReserveData, Cmd, pure, ◌>>=◌, ◌>>◌, assert, load, store, perform, perform_,
}
use cinder_userspace.Syscall.{cinder_put_reserve}

-- The address of a local variable of the caller.
abbrev pub local : Ptr
local = 1

-- The value of a variable after a call that may have stored one.
abbrev pub stored {ℓ} : {A : Type ℓ} → Option A → A → A
stored none old = old
stored (some p) old = p

module _ {H L : Type 0} (env : Env H L) where
  unfoldable pub record_lock : Ptr → Cmd H L ℤ
  record_lock p = if p == null then pure einval else perform env (mutex_lock (data_lock p))

  unfoldable pub record_unlock : Ptr → Cmd H L ℤ
  record_unlock p = if p == null then pure einval else perform env (mutex_unlock (data_lock p))

  -- The part behind the tests of the arguments.
  record_create_checked : ℕ → UidReserveData → Cmd H L (ℤ × Option Ptr)
  record_create_checked uid init_data = do
    assert (not init_data.reserve_created)
    address ← perform env malloc
    let p = pos_part address
    if p == null then pure (enomem, none) else do
      err ← perform env (mutex_init (data_lock p))
      if nonzero err
          then (do perform_ env (free p); pure (err, none))
          else do store p (record { reserve_data = init_data; uid = uid }); pure (pos 0, some p)

  -- The error, and the record stored at `record_loc`.
  unfoldable pub record_create : Ptr → ℕ → Option UidReserveData → Cmd H L (ℤ × Option Ptr)
  unfolding record_create_checked
  record_create record_loc uid none = pure (einval, none)
  record_create record_loc uid (some init_data) =
      if record_loc == null then pure (einval, none) else record_create_checked uid init_data

  -- The address is not freed.
  unfoldable pub record_destroy : Ptr → Cmd H L ℤ
  unfolding cinder_put_reserve
  record_destroy p = if p == null then pure einval else do
    perform_ env (mutex_destroy (data_lock p))
    r ← load p
    if r.reserve_data.reserve_created
        then cinder_put_reserve env r.reserve_data.reserve_id
        else pure (pos 0)
