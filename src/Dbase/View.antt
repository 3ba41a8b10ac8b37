-- ===== src/Dbase/View.antt =====
-- The database as a partial map from uids to reserve data.
use cinder_userspace.Base.{ℕ, Option, none, some}
use cinder_userspace.Base.Int.{ℤ}
use cinder_userspace.Os.{Ptr, Env}
use cinder_userspace.Store.{UidReserveData, UidReserveRecord, Heap, World}

abbrev pub data_of : Option UidReserveRecord → Option UidReserveData
data_of none = none
data_of (some r) = some r.reserve_data

abbrev pub data_at : Heap → Option Ptr → Option UidReserveData
data_at h none = none
data_at h (some p) = data_of (h p)

-- The data that the database holds for a uid.
abbrev pub entry : {H L : Type 0} → Env H L → World H L → ℕ → Option UidReserveData
entry env w uid = data_at w.heap (env.hash.find w.active uid)

abbrev pub params_of : Option UidReserveData → Option (ℕ × ℤ)
params_of none = none
params_of (some d) = some (d.tap_type, d.tap_value)

abbrev pub with_params : ℕ → ℤ → Option UidReserveData → Option UidReserveData
with_params tap_type tap_value none = none
with_params tap_type tap_value (some d) =
    some (record d { tap_type = tap_type; tap_value = tap_value })
