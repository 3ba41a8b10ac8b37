-- ===== src/Example/Console.antt =====
-- The theorems on the controller program, at concrete inputs.
use cinder_userspace.Base.{
  ℕ, ◌+◌, ◌^◌, ◌≤◌, ◌<◌, ◌≡◌, refl, false, true, List, [], ◌∷◌, ◌++◌, arith, length, mem, ◌==◌,
  if◌then◌else◌,
}
use cinder_userspace.Base.Int.{ℤ, pos, is_zero}
use cinder_userspace.Base.Text.{codes}
use cinder_userspace.Os.{Call, Trace, Env, syscall}
use cinder_userspace.Os.Ledger.{opened}
use cinder_userspace.Store.{Returns, ok}
use cinder_userspace.Syscall.{cinder_max_namelen}
use cinder_userspace.Context.{
  pa_no_error, pa_stat_reserve, pa_get_tap_params, pa_set_tap_params, pa_add_uid_params,
  pa_remove_uid_params,
}
use cinder_userspace.Controller.{bad_type_or_sign}
use cinder_userspace.Wire.{bytes, read_set_query, read_add_query, write_set_query, write_add_query}
use cinder_userspace.Console.Prompts.{ask_uid, ask_params, ask_name}
use cinder_userspace.Console.Reserves.{
  sys_num_reserves, sys_get_reserve, sys_num_taps, sys_get_tap, handle_list_reserves,
  handle_list_taps,
}
use cinder_userspace.Client.{get_response, stat_response}
use cinder_userspace.Console.Requests.{
  response_text, mapping_text, report_mapping, report_reserve, handle_add_reserve_mapping,
  handle_del_reserve_mapping, handle_get_reserve_mapping_data, handle_set_reserve_mapping_data,
  handle_connect_to_uid_reserve,
}
use cinder_userspace.Console.Commands.{main}
use cinder_userspace.Console.Reported.{printed}
use cinder_userspace.Console.Granted.{grant_flags, grant_texts, responses_reported}
use cinder_userspace.Console.Requested.{Requested, handlers-Requested}
use cinder_userspace.Console.Typed.{typed_params, params_of}
use cinder_userspace.Console.Arrival.{Arrives, typed_params_arrive}
use cinder_userspace.Console.Closed.{connects, main-Closed}
use cinder_userspace.Console.Accepted.{ask_params-accepted, ask_name-bounds}
use cinder_userspace.Console.Listed.{Listed, lists-Listed}
use cinder_userspace.Example.{calm, start, environment}
use cinder_userspace.Example.Table.{Pairs}

errno_set : (t : Trace) → is_zero (calm.errno t) ≡ false
errno_set t = refl

abbrev lines : List ℕ
lines = codes "10045\n40\np\nadd\n"

handlers-Requested_example :
    Returns
      (Requested calm
        (pos 3)
        ask_params
        (λ q. bytes 4 pa_add_uid_params ++ write_add_query q)
        lines
        start)
      (handle_add_reserve_mapping calm (pos 3) lines start)
    × Returns
        (Requested calm
          (pos 3)
          ask_uid
          (λ uid. bytes 4 pa_remove_uid_params ++ bytes 8 uid)
          lines
          start)
        (handle_del_reserve_mapping calm (pos 3) lines start)
    × Returns
        (Requested calm
          (pos 3)
          ask_uid
          (λ uid. bytes 4 pa_get_tap_params ++ bytes 8 uid)
          lines
          start)
        (handle_get_reserve_mapping_data calm (pos 3) lines start)
    × Returns
        (Requested calm
          (pos 3)
          ask_params
          (λ q. bytes 4 pa_set_tap_params ++ write_set_query q)
          lines
          start)
        (handle_set_reserve_mapping_data calm (pos 3) lines start)
    × Returns
        (Requested calm (pos 3) ask_uid (λ uid. bytes 4 pa_stat_reserve ++ bytes 8 uid) lines start)
        (handle_connect_to_uid_reserve calm (pos 3) lines start)
handlers-Requested_example = handlers-Requested calm errno_set (pos 3) refl lines start

typed_params_arrive_example :
    Returns
      (λ a w'.
        (a.1 ≡ [])
        × (is_zero (a.0) ≡ true
            → Arrives (pos 3) 10045 40 true start pa_add_uid_params read_add_query w'))
      (handle_add_reserve_mapping calm (pos 3) (typed_params 10045 40 true []) start)
    × Returns
        (λ a w'.
          (a.1 ≡ [])
          × (is_zero (a.0) ≡ true
              → Arrives (pos 3) 10045 40 true start pa_set_tap_params read_set_query w'))
        (handle_set_reserve_mapping_data calm (pos 3) (typed_params 10045 40 true []) start)
typed_params_arrive_example =
    typed_params_arrive calm errno_set (pos 3) refl 10045 40 true [] start (omega arith)
      (omega arith)

main-Closed_example :
    Returns
      (λ status w'.
        (status ≡ (if connects calm start then pos 0 else pos 1))
        × (connects calm start ≡ true → opened w'.trace ≡ opened start.trace))
      (main calm (codes "get\n10045\nset\n1\n") start)
main-Closed_example = main-Closed calm errno_set (codes "get\n10045\nset\n1\n") start

ask_params-accepted_example :
    (bad_type_or_sign 2 (pos 40) ≡ false)
    × (10045 < 2 ^ 32)
    × (read_set_query (write_set_query (params_of 10045 40 true)) ≡ params_of 10045 40 true)
    × (read_add_query (write_add_query (params_of 10045 40 true)) ≡ params_of 10045 40 true)
unfolding ask_params
ask_params-accepted_example = ask_params-accepted lines (params_of 10045 40 true) refl

ask_name-bounds_example :
    (length (codes "camera") + 1 ≡ 7)
    × (7 ≤ cinder_max_namelen)
    × (mem b'\n' (codes "camera") ≡ false)
    × (mem 0 (codes "camera") ≡ false)
unfolding ask_name
ask_name-bounds_example = ask_name-bounds (codes "camera\nx") (codes "camera") 7 refl

-- Three reserves, and three taps.
abbrev three : Trace → Call → ℤ
three t (syscall number arguments) =
    if number == sys_num_reserves then pos 3 else if number == sys_num_taps then pos 3 else pos 8
three t c = pos 0

abbrev busy : Env Pairs (List ℕ)
busy = environment three (pos 1) []

lists-Listed_example :
    Returns (Listed busy (pos 3) sys_get_reserve [] start) (handle_list_reserves busy [] start)
    × Returns (Listed busy (pos 3) sys_get_tap [] start) (handle_list_taps busy [] start)
lists-Listed_example = lists-Listed busy [] start

responses_reported_example :
    (report_mapping calm 10045 (get_response (pos 0) 1 (pos 40) (pos 7)) start
      ≡ ok
          (pos 0)
          (printed calm (response_text pa_no_error ∷ mapping_text 10045 1 (pos 40) ∷ []) start))
    × (report_reserve calm 10045 (stat_response (pos 0) (pos 3) (grant_flags true)) start
        ≡ ok
            (pos 0)
            (printed calm (response_text pa_no_error ∷ grant_texts 10045 true (pos 3)) start))
responses_reported_example =
    responses_reported calm 10045 start (pos 0) 1 (pos 40) (pos 7) (pos 3) true (omega arith)
      (omega arith)
