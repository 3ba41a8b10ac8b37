-- ===== src/Example/Requests.antt =====
-- The theorems on the requests, at the worlds of Example/Worlds.antt.
use cinder_userspace.Base.{ℕ, ◌≡◌, refl, ◌==◌, ◌&&◌, if◌then◌else◌, some, List}
use cinder_userspace.Base.Int.{pos, is_zero}
use cinder_userspace.Os.Ledger.{reserves, taps, locked}
use cinder_userspace.Store.{Returns}
use cinder_userspace.Context.{pa_add_uid_params}
use cinder_userspace.Dbase.View.{entry, with_params}
use cinder_userspace.Wire.{write_add_query}
use cinder_userspace.Controller.{
  stat_reserve, get_tap_params, set_tap_params, add_reserve_params_for_uid,
}
use cinder_userspace.Controller.Get.{Got, get_tap_params-Got}
use cinder_userspace.Controller.Set.{set_tap_params-map}
use cinder_userspace.Controller.Add.{Accepted, add-Accepted}
use cinder_userspace.Controller.Stat.{Answer, stat_reserve-Answer}
use cinder_userspace.Controller.Ledger.{gained, stat_reserve-ledger}
use cinder_userspace.Controller.Safe.{Safe}
use cinder_userspace.Client.{handle_request}
use cinder_userspace.Client.Safe.{accepted_client, handle_request-Safe}
use cinder_userspace.Example.{calm, start, environment, willing}
use cinder_userspace.Example.Worlds.{context, loaded, loaded_Inv, start_Inv}

get_tap_params-Got_example :
    Returns
      (Got calm 10045 loaded)
      (get_tap_params calm (some context) 10045 (pos 900) 0 8 8 loaded)
get_tap_params-Got_example =
    get_tap_params-Got calm context 10045 (pos 900) 0 8 8 loaded refl refl refl loaded_Inv

set_tap_params-map_example :
    Returns
      (λ a w'. entry calm w' 10045 ≡ (
        if is_zero (a.0) && (10045 == 10045)
        then with_params 1 (pos 500) (entry calm loaded 10045)
        else entry calm loaded 10045))
      (set_tap_params calm (some context) 10045 (pos 900) 0 1 (pos 500) 8 loaded)
set_tap_params-map_example =
    set_tap_params-map calm context 10045 (pos 900) 0 1 (pos 500) 8 loaded refl refl loaded_Inv
      10045

add-Accepted_example :
    Returns
      (Accepted calm 10046 1 (pos 30) loaded)
      (add_reserve_params_for_uid calm (some context) 10046 (pos 900) 0 1 (pos 30) 8 loaded)
add-Accepted_example =
    add-Accepted calm context 10046 (pos 900) 0 1 (pos 30) loaded refl loaded_Inv 8

stat_reserve-Answer_example :
    Returns
      (Answer calm context 10045 (pos 900) 0 loaded refl loaded_Inv)
      (stat_reserve calm (some context) 10045 (pos 900) 0 8 8 loaded)
stat_reserve-Answer_example =
    stat_reserve-Answer calm context 10045 (pos 900) 0 loaded refl loaded_Inv 8 8 refl refl

stat_reserve-ledger_example :
    Returns
      (λ a w'.
        (reserves w'.trace
          ≡ gained
              (λ d. d.reserve_id)
              (entry calm loaded 10045)
              (entry calm w' 10045)
              (reserves loaded.trace))
        × (taps w'.trace
            ≡ gained
                (λ d. d.tap_id)
                (entry calm loaded 10045)
                (entry calm w' 10045)
                (taps loaded.trace)))
      (stat_reserve calm (some context) 10045 (pos 900) 0 8 8 loaded)
stat_reserve-ledger_example =
    stat_reserve-ledger calm context 10045 (pos 900) 0 loaded refl loaded_Inv 8 8

-- A client that asks to add parameters for the uid 10045.
unfoldable pub adder : List ℕ
unfolding write_add_query
adder = write_add_query (record { uid = 10045; tap_type = 0; tap_value = pos 500 })

handle_request-Safe_example :
    Returns
      (λ a. Safe (environment willing (pos 1) adder))
      (handle_request
        (environment willing (pos 1) adder)
        (accepted_client context (pos 3) 0 0 (pos 900))
        pa_add_uid_params
        start)
unfolding locked
handle_request-Safe_example =
    handle_request-Safe (environment willing (pos 1) adder) context (pos 3) 0 0 (pos 900) refl refl
      start (record { inv = start_Inv adder; free = λ m. refl }) pa_add_uid_params
