-- ===== src/Context.antt =====
-- CinderUserspace/PowerArbiter/PowerArbiter.h and protocol.h: the program context and the numbers
-- of the protocol.
use cinder_userspace.Base.{ℕ, Option, none, some}
use cinder_userspace.Base.Int.{ℤ}
use cinder_userspace.Os.{Ptr}
use cinder_userspace.Store.{Cmd, pure, fault}

-- PAContext, and the address at which it stands. Its lock and its semaphore belong to the trace.
pub record PaContext : Type 0 where
  pub active : ℤ
  pub num_users : ℤ
  pub reaper_should_exit : ℤ
  pub receiver_should_exit : ℤ
  pub dbase : Ptr
  pub listen_sock : ℤ
  pub address : Ptr

-- RESERVE_REAPER_DELAY_SECONDS
abbrev pub reserve_reaper_delay_seconds : ℕ
reserve_reaper_delay_seconds = 1

-- progctx->dbase, which ends the process where `progctx` is NULL.
abbrev pub dbase_of : {H L : Type 0} → Option PaContext → Cmd H L Ptr
dbase_of none w = fault
dbase_of (some c) w = pure c.dbase w

-- Request types.
abbrev pub pa_stat_reserve : ℕ
pa_stat_reserve = 1

abbrev pub pa_get_tap_params : ℕ
pa_get_tap_params = 2

abbrev pub pa_set_tap_params : ℕ
pa_set_tap_params = 3

abbrev pub pa_add_uid_params : ℕ
pa_add_uid_params = 4

abbrev pub pa_remove_uid_params : ℕ
pa_remove_uid_params = 5

abbrev pub pa_goodbye : ℕ
pa_goodbye = 6

-- Error codes in a response.
abbrev pub pa_no_error : ℕ
pa_no_error = 0

abbrev pub pa_bad_permissions : ℕ
pa_bad_permissions = 1

abbrev pub pa_uid_not_found : ℕ
pa_uid_not_found = 2

abbrev pub pa_invalid_input : ℕ
pa_invalid_input = 3

abbrev pub pa_failure : ℕ
pa_failure = 4

abbrev pub pa_uid_exists : ℕ
pa_uid_exists = 5

-- Flags of PAStatReserveResponse.
abbrev pub pa_reserve_granted : ℕ
pa_reserve_granted = 1

abbrev pub pa_use_root_reserve : ℕ
pa_use_root_reserve = 2
