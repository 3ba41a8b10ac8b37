-- ===== src/Example/Worlds.antt =====
-- Worlds that the requests lead to, and their invariant.
use cinder_userspace.Base.{[], ℕ, ◌≡◌, refl, false, List, some, arith}
use cinder_userspace.Base.Int.{pos}
use cinder_userspace.Os.{Mutex}
use cinder_userspace.Os.Ledger.{locked}
use cinder_userspace.Store.{UidReserveData, World, Run, ok, fault, out_of_fuel}
use cinder_userspace.Context.{PaContext}
use cinder_userspace.Dbase.{add_entry, remove_entry}
use cinder_userspace.Dbase.Invariant.{Inv}
use cinder_userspace.Dbase.Add.{add_entry-Added}
use cinder_userspace.Controller.{stat_reserve, remove_reserve_params_for_uid}
use cinder_userspace.Controller.Safe.{Safe, stat_reserve-Safe, remove-Safe}
use cinder_userspace.Example.{calm, start, environment, willing}
use cinder_userspace.Example.Table.{Pairs}

abbrev pub context : PaContext
context = record {
  active = pos 1;
  num_users = pos 0;
  reaper_should_exit = pos 0;
  receiver_should_exit = pos 0;
  dbase = 50;
  listen_sock = pos 3;
  address = 60;
}

abbrev pub end_of : {A : Type 0} → Run Pairs (List ℕ) A → World Pairs (List ℕ)
end_of (ok a w) = w
end_of fault = start
end_of out_of_fuel = start

pub start_Inv : (input : List ℕ) → Inv (environment willing (pos 1) input) start
start_Inv input = record {
  table = refl;
  keyed = λ k p h. cc;
  buried = λ p h. cc;
  apart = λ k p h. refl;
  distinct = tt;
  in_memory = λ p h. refl;
}

abbrev pub proportional : UidReserveData
proportional = record {
  reserve_created = false;
  reserve_id = pos 0;
  tap_id = pos 0;
  tap_type = 1;
  tap_value = pos 40;
}

-- The uid 10045 has parameters.
unfoldable pub loaded : World Pairs (List ℕ)
unfolding add_entry
loaded = end_of (add_entry calm 50 10045 (some proportional) start)

pub loaded_Inv : Inv calm loaded
unfolding loaded add_entry
loaded_Inv = (add_entry-Added calm 50 10045 proportional start refl refl (start_Inv [])).inv

pub loaded_free : (m : Mutex) → locked m loaded.trace ≡ false
unfolding loaded add_entry locked
loaded_free m = ground arith

-- Its reserve is made.
unfoldable pub granted : World Pairs (List ℕ)
unfolding stat_reserve
granted = end_of (stat_reserve calm (some context) 10045 (pos 900) 0 8 8 loaded)

pub granted_Safe : Safe calm granted
unfolding granted stat_reserve loaded add_entry
granted_Safe =
    stat_reserve-Safe calm context 10045 (pos 900) 0 loaded refl
      (record { inv = loaded_Inv; free = loaded_free }) 8 8

-- Its record is on the dead list.
unfoldable pub buried : World Pairs (List ℕ)
unfolding remove_reserve_params_for_uid remove_entry
buried = end_of (remove_reserve_params_for_uid calm (some context) 10045 (pos 900) 0 granted)

pub buried_Safe : Safe calm buried
unfolding buried granted stat_reserve loaded add_entry remove_reserve_params_for_uid remove_entry
buried_Safe = remove-Safe calm context 10045 (pos 900) 0 granted refl granted_Safe
