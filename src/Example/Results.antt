-- ===== src/Example/Results.antt =====
-- What the requests return, at the worlds of Example/Worlds.antt.
use cinder_userspace.Base.{◌≡◌, refl, true, some, ◌||◌, if◌then◌else◌}
use cinder_userspace.Base.Int.{pos, enoent, eexist, einval}
use cinder_userspace.Os.Ledger.{unless_failed}
use cinder_userspace.Store.{Returns}
use cinder_userspace.Dbase.Invariant.{is_some}
use cinder_userspace.Dbase.View.{entry}
use cinder_userspace.Controller.{
  bad_type_or_sign, bad_share, stat_reserve, get_tap_params, set_tap_params,
  add_reserve_params_for_uid, remove_reserve_params_for_uid,
}
use cinder_userspace.Controller.Success.{
  stat_reserve-Returns, set_tap_params-Returns, add-Returns, get_and_remove-Returns,
}
use cinder_userspace.Example.{calm}
use cinder_userspace.Example.Worlds.{context, loaded, loaded_Inv}

stat_reserve-Returns_example :
    Returns
      (λ a w'. unless_failed loaded.trace w'.trace (a.0) (pos 0) ≡ true)
      (stat_reserve calm (some context) 10045 (pos 900) 0 8 8 loaded)
stat_reserve-Returns_example =
    stat_reserve-Returns calm context 10045 (pos 900) 0 loaded refl loaded_Inv 8 8 refl refl

set_tap_params-Returns_example :
    Returns
      (λ a w'.
        unless_failed loaded.trace w'.trace (a.0) (
          if bad_type_or_sign 1 (pos 500) || bad_share 1 (pos 500)
          then einval
          else if is_some (entry calm loaded 10045)
          then pos 0
          else enoent)
        ≡ true)
      (set_tap_params calm (some context) 10045 (pos 900) 0 1 (pos 500) 8 loaded)
set_tap_params-Returns_example =
    set_tap_params-Returns calm context 10045 (pos 900) 0 loaded refl loaded_Inv 1 (pos 500) 8 refl

add-Returns_example :
    Returns
      (λ a w'.
        unless_failed loaded.trace w'.trace (a.0) (
          if bad_type_or_sign 2 (pos 30) || bad_share 2 (pos 30)
          then einval
          else if is_some (entry calm loaded 10046)
          then eexist
          else pos 0)
        ≡ true)
      (add_reserve_params_for_uid calm (some context) 10046 (pos 900) 0 2 (pos 30) 8 loaded)
add-Returns_example =
    add-Returns calm context 10046 (pos 900) 0 loaded refl loaded_Inv 2 (pos 30) 8 refl

get_and_remove-Returns_example :
    Returns
      (λ a w'.
        unless_failed loaded.trace w'.trace
          (a.0)
          (if is_some (entry calm loaded 10045) then pos 0 else enoent)
        ≡ true)
      (get_tap_params calm (some context) 10045 (pos 900) 0 8 8 loaded)
    × Returns
        (λ err w'.
          unless_failed loaded.trace w'.trace err
            (if is_some (entry calm loaded 10045) then pos 0 else enoent)
          ≡ true)
        (remove_reserve_params_for_uid calm (some context) 10045 (pos 900) 0 loaded)
get_and_remove-Returns_example =
    get_and_remove-Returns calm context 10045 (pos 900) 0 loaded refl loaded_Inv 8 8 refl refl
