-- ===== src/Console/Reserves.antt =====
-- CinderUserspace/PAController/util.c, which CinderUserspace/cinder_validation/plumbing_test/
-- cinder_ptest.c repeats: handlers that make a system call each, by its number where the daemon
-- does not make it. What is printed of a reserve or of a tap is left out but for the lists.
use cinder_userspace.Base.{ℕ, zero, suc, ◌+◌, List, [], ◌∷◌, ◌++◌, if◌then◌else◌}
use cinder_userspace.Base.Int.{ℤ, pos, pos_part, is_neg, enosys}
use cinder_userspace.Base.Text.{codes, format_d, word_32}
use cinder_userspace.Os.{Env, print, getpid, syscall, sys_reserve_info}
use cinder_userspace.Store.{Cmd, pure, ◌>>=◌, ◌>>◌, perform, perform_}
use cinder_userspace.Syscall.{
  cinder_create_reserve, cinder_create_tap, cinder_tap_set_rate, cinder_expose_reserve,
  cinder_put_reserve, cinder_delete_tap,
}
use cinder_userspace.Console.{Handler, on_answer}
use cinder_userspace.Console.Prompts.{
  ask_name, ask_id, ask_new_tap, ask_transfer, ask_tap_rate, ask_exposure,
}

abbrev pub sys_reserve_transfer : ℕ
sys_reserve_transfer = 363

abbrev pub sys_reserve_level : ℕ
sys_reserve_level = 365

abbrev pub sys_set_active_reserve : ℕ
sys_set_active_reserve = 366

abbrev sys_self_bill : ℕ
sys_self_bill = 368

abbrev pub sys_num_reserves : ℕ
sys_num_reserves = 369

abbrev pub sys_get_reserve : ℕ
sys_get_reserve = 370

abbrev pub sys_num_taps : ℕ
sys_num_taps = 371

abbrev pub sys_get_tap : ℕ
sys_get_tap = 372

abbrev pub sys_info_tap : ℕ
sys_info_tap = 375

abbrev pub sys_add_reserve_child_list : ℕ
sys_add_reserve_child_list = 378

abbrev pub sys_del_reserve_child_list : ℕ
sys_del_reserve_child_list = 379

abbrev sys_num_child_list_reserves : ℕ
sys_num_child_list_reserves = 380

abbrev sys_get_child_list_reserve : ℕ
sys_get_child_list_reserve = 381

-- "Reserve %ld has ID %d\n", and the same of a tap.
abbrev pub has_id : (what : List ℕ) (index : ℕ) (id : ℤ) → List ℕ
has_id what index id =
    what ++ (format_d index ++ (codes " has ID " ++ (format_d (word_32 id) ++ codes "\n")))

-- handle_stats, handle_root_reserve, handle_battery, handle_list_all_taps and
-- handle_list_all_reserves, for which there is no system call yet.
abbrev pub not_implemented : {H L : Type 0} → Handler H L
not_implemented input = pure (enosys, input)

module _ {H L : Type 0} (env : Env H L) where
  unfoldable pub reserve_transfer : (src dest amount fail_if_insufficient : ℤ) → Cmd H L ℤ
  reserve_transfer src dest amount fail_if_insufficient =
      perform env (syscall sys_reserve_transfer (src ∷ dest ∷ amount ∷ fail_if_insufficient ∷ []))

  unfoldable pub reserve_level : (reserve_id : ℤ) → Cmd H L ℤ
  reserve_level reserve_id = perform env (syscall sys_reserve_level (reserve_id ∷ []))

  unfoldable pub set_active_reserve : (reserve_id : ℤ) → Cmd H L ℤ
  set_active_reserve reserve_id = perform env (syscall sys_set_active_reserve (reserve_id ∷ []))

  unfoldable pub self_bill : (billing_type amount : ℤ) → Cmd H L ℤ
  self_bill billing_type amount = perform env (syscall sys_self_bill (billing_type ∷ amount ∷ []))

  unfoldable pub num_reserves : Cmd H L ℤ
  num_reserves = perform env (syscall sys_num_reserves [])

  unfoldable pub get_reserve : (index : ℕ) → Cmd H L ℤ
  get_reserve index = perform env (syscall sys_get_reserve (pos index ∷ []))

  unfoldable pub num_taps : Cmd H L ℤ
  num_taps = perform env (syscall sys_num_taps [])

  unfoldable pub get_tap : (index : ℕ) → Cmd H L ℤ
  get_tap index = perform env (syscall sys_get_tap (pos index ∷ []))

  unfoldable pub tap_info : (tap_id : ℤ) → Cmd H L ℤ
  tap_info tap_id = perform env (syscall sys_info_tap (tap_id ∷ []))

  unfoldable pub add_reserve_to_child_list : (reserve_id : ℤ) (capabilities : ℕ) → Cmd H L ℤ
  add_reserve_to_child_list reserve_id capabilities =
      perform env (syscall sys_add_reserve_child_list (reserve_id ∷ pos capabilities ∷ []))

  unfoldable pub del_reserve_from_child_list : (reserve_id : ℤ) → Cmd H L ℤ
  del_reserve_from_child_list reserve_id =
      perform env (syscall sys_del_reserve_child_list (reserve_id ∷ []))

  unfoldable pub num_child_list_reserves : Cmd H L ℤ
  num_child_list_reserves = perform env (syscall sys_num_child_list_reserves [])

  unfoldable pub get_child_list_reserve : (index : ℕ) → Cmd H L ℤ
  get_child_list_reserve index = perform env (syscall sys_get_child_list_reserve (pos index ∷ []))

  unfoldable pub handle_create_reserve : Handler H L
  unfolding ask_name cinder_create_reserve
  handle_create_reserve = on_answer ask_name (λ (name, len). cinder_create_reserve env name len)

  unfoldable pub handle_create_tap : Handler H L
  unfolding ask_new_tap cinder_create_tap
  handle_create_tap =
      on_answer ask_new_tap (λ ((name, len), src, dest). cinder_create_tap env name len src dest)

  unfoldable pub handle_reserve_transfer : Handler H L
  unfolding ask_transfer reserve_transfer
  handle_reserve_transfer =
      on_answer ask_transfer (λ (src, dest, amount, fail). reserve_transfer src dest amount fail)

  unfoldable pub handle_info_reserve : Handler H L
  unfolding ask_id
  handle_info_reserve = on_answer ask_id (λ id. perform env (sys_reserve_info id))

  unfoldable pub handle_reserve_level : Handler H L
  unfolding ask_id reserve_level
  handle_reserve_level = on_answer ask_id reserve_level

  unfoldable pub handle_tap_set_rate : Handler H L
  unfolding ask_tap_rate cinder_tap_set_rate
  handle_tap_set_rate =
      on_answer ask_tap_rate (λ (tap, kind, value). cinder_tap_set_rate env tap kind value)

  unfoldable pub handle_expose_reserve : Handler H L
  unfolding ask_exposure cinder_expose_reserve
  handle_expose_reserve =
      on_answer ask_exposure
        (λ (reserve_id, pid, capabilities). cinder_expose_reserve env pid reserve_id capabilities)

  unfoldable pub handle_put_reserve : Handler H L
  unfolding ask_id cinder_put_reserve
  handle_put_reserve = on_answer ask_id (cinder_put_reserve env)

  unfoldable pub handle_info_tap : Handler H L
  unfolding ask_id tap_info
  handle_info_tap = on_answer ask_id tap_info

  unfoldable pub handle_delete_tap : Handler H L
  unfolding ask_id cinder_delete_tap
  handle_delete_tap = on_answer ask_id (cinder_delete_tap env)

  unfoldable pub handle_pid : Handler H L
  handle_pid input = do pid ← perform env getpid; pure (pid, input)

  -- The loop, with `left` rounds to go; an index at which the call fails is printed as well.
  unfoldable pub list_reserves_from : (left index : ℕ) → Cmd H L (Unit {0})
  unfolding get_reserve format_d
  list_reserves_from zero index = pure tt
  list_reserves_from (suc left) index = do
    reserve ← get_reserve index
    perform_ env (print (has_id (codes "Reserve ") index reserve))
    list_reserves_from left (index + 1)

  unfoldable pub handle_list_reserves : Handler H L
  unfolding num_reserves list_reserves_from
  handle_list_reserves input = do
    num ← num_reserves
    if is_neg num
        then pure (num, input)
        else do list_reserves_from (pos_part num) 0; pure (pos 0, input)

  unfoldable pub list_taps_from : (left index : ℕ) → Cmd H L (Unit {0})
  unfolding get_tap format_d
  list_taps_from zero index = pure tt
  list_taps_from (suc left) index = do
    tap ← get_tap index
    perform_ env (print (has_id (codes "Tap ") index tap))
    list_taps_from left (index + 1)

  unfoldable pub handle_list_taps : Handler H L
  unfolding num_taps list_taps_from
  handle_list_taps input = do
    num ← num_taps
    if is_neg num
        then pure (num, input)
        else do list_taps_from (pos_part num) 0; pure (pos 0, input)
