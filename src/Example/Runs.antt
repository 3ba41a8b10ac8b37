-- ===== src/Example/Runs.antt =====
-- Runs of the requests, and the theorems at concrete inputs.
use cinder_userspace.Base.{ℕ, ◌≡◌, refl, none, some, List, Option}
use cinder_userspace.Base.Int.{ℤ, pos}
use cinder_userspace.Base.Text.{codes}
use cinder_userspace.Store.{Run, ok, fault, out_of_fuel, Cmd, pure, ◌>>=◌}
use cinder_userspace.Dbase.{add_entry}
use cinder_userspace.Context.{PaContext}
use cinder_userspace.Controller.{
  rsv_name, stat_reserve, get_tap_params, set_tap_params, add_reserve_params_for_uid,
}
use cinder_userspace.Example.Table.{Pairs}
use cinder_userspace.Example.{calm, start}

abbrev context : PaContext
context = record {
  active = pos 1;
  num_users = pos 0;
  reaper_should_exit = pos 0;
  receiver_should_exit = pos 0;
  dbase = 50;
  listen_sock = pos 3;
  address = 60;
}

names : rsv_name 10045 ≡ codes "10045_User_Reserve"
unfolding rsv_name
names = refl

abbrev out : {A : Type 0} → Run Pairs (List ℕ) A → Option A
out (ok a w) = some a
out fault = none
out out_of_fuel = none

session : Cmd Pairs (List ℕ) (ℤ × Option (ℕ × ℤ) × (ℤ × Option (ℤ × ℕ)))
unfolding add_reserve_params_for_uid get_tap_params set_tap_params stat_reserve
session = do
  _ ← add_reserve_params_for_uid calm (some context) 10045 (pos 900) 0 1 (pos 40) 8
  (err, params) ← get_tap_params calm (some context) 10045 (pos 900) 0 8 8
  s ← stat_reserve calm (some context) 10045 (pos 900) 0 8 8
  pure (err, params, s)

session_run : out (session start) ≡ some (pos 0, some (1, pos 40), (pos 0, some (pos 18, 1)))
unfolding session add_entry
session_run = refl
