-- ===== src/Syscall.antt =====
-- CinderUserspace/PowerArbiter/syscall.c and syscall.h: the wrappers of the Cinder system calls.
-- On the 32-bit ARM target a `long` is an `int`.
use cinder_userspace.Base.{ℕ, List, Option, none, some, ◌==◌, if◌then◌else◌}
use cinder_userspace.Base.Int.{ℤ, pos, nonzero, einval}
use cinder_userspace.Os.{
  Ptr, null, sys_create_reserve, sys_create_tap, sys_set_tap_rate, sys_put_reserve, sys_delete_tap,
  sys_expose_reserve, sys_reserve_info, sys_root_reserve_id, Env,
}
use cinder_userspace.Store.{Cmd, pure, ◌>>=◌, gets, perform}

-- CINDER_MAX_NAMELEN, CINDER_CAP_ALL, CINDER_TAP_RATE_CONSTANT, CINDER_TAP_RATE_PROPORTIONAL
abbrev pub cinder_max_namelen : ℕ
cinder_max_namelen = 20

abbrev pub cinder_cap_all : ℕ
cinder_cap_all = 3

abbrev pub cinder_tap_rate_constant : ℕ
cinder_tap_rate_constant = 1

abbrev pub cinder_tap_rate_proportional : ℕ
cinder_tap_rate_proportional = 2

module _ {H L : Type 0} (env : Env H L) where
  unfoldable pub cinder_create_reserve : List ℕ → ℕ → Cmd H L ℤ
  cinder_create_reserve name len = perform env (sys_create_reserve name len)

  unfoldable pub cinder_create_tap : List ℕ → ℕ → ℤ → ℤ → Cmd H L ℤ
  cinder_create_tap name len src dest = perform env (sys_create_tap name len src dest)

  unfoldable pub cinder_tap_set_rate : ℤ → ℤ → ℤ → Cmd H L ℤ
  cinder_tap_set_rate tap_id rate_type value = perform env (sys_set_tap_rate tap_id rate_type value)

  unfoldable pub cinder_put_reserve : ℤ → Cmd H L ℤ
  cinder_put_reserve reserve_id = perform env (sys_put_reserve reserve_id)

  unfoldable pub cinder_delete_tap : ℤ → Cmd H L ℤ
  cinder_delete_tap tap_id = perform env (sys_delete_tap tap_id)

  unfoldable pub cinder_expose_reserve : ℤ → ℤ → ℕ → Cmd H L ℤ
  cinder_expose_reserve pid reserve_id capabilities =
      perform env (sys_expose_reserve pid reserve_id capabilities)

  -- The error, and what is stored at `num_users`.
  unfoldable pub cinder_get_num_reserve_users : ℤ → Ptr → Cmd H L (ℤ × Option ℤ)
  cinder_get_num_reserve_users rsv_id num_users =
      if num_users == null then pure (einval, none) else do
        users ← gets (λ w. env.num_users w.trace rsv_id)
        ret ← perform env (sys_reserve_info rsv_id)
        if nonzero ret then pure (ret, none) else pure (pos 0, some users)

  -- The error, and what is stored at `root_reserve_id`. The result of the call is not tested.
  unfoldable pub cinder_get_root_reserve_id : Ptr → Cmd H L (ℤ × Option ℤ)
  cinder_get_root_reserve_id root_reserve_id =
      if root_reserve_id == null
      then pure (einval, none)
      else do root ← perform env sys_root_reserve_id; pure (pos 0, some root)
