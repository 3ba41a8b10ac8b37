-- ===== src/Validation/Plumbing/Reserves.antt =====
-- The handlers of cinder_ptest.c for reserves. What the kernel stores of a reserve is not printed
-- here.
use Prim.Native.String.{String}
use cinder_userspace.Base.{ℕ, zero, suc, not, ◌+◌, length, if◌then◌else◌}
use cinder_userspace.Base.Int.{pos, pos_part, is_neg, nonzero}
use cinder_userspace.Base.Text.{codes, format_d}
use cinder_userspace.Os.{Env, sys_reserve_info}
use cinder_userspace.Store.{Cmd, pure, ◌>>=◌, ◌>>◌, assert, perform}
use cinder_userspace.Syscall.{
  cinder_max_namelen, cinder_create_reserve, cinder_expose_reserve, cinder_put_reserve,
}
use cinder_userspace.Stdin.{chomp, same_text, atol}
use cinder_userspace.Console.{Handler}
use cinder_userspace.Console.Prompts.{id_size, amount_size, cap_reserve_draw, cap_reserve_modify}
use cinder_userspace.Console.Reserves.{
  reserve_transfer, reserve_level, num_reserves, get_reserve, has_id,
}
use cinder_userspace.Validation.Plumbing.{text, with_number, say, with_line, reporting}

module _ {H L : Type 0} (env : Env H L) where
  unfoldable pub handle_create_reserve : Handler H L
  unfolding chomp cinder_create_reserve
  handle_create_reserve =
      with_line env "Please enter the name for the reserve: " "Error reading name.\n"
        cinder_max_namelen
        (λ name.
          reporting env
            (λ ret.
              if is_neg ret
              then with_number "Error creating reserve: " ret "\n"
              else with_number "Created reserve with id " ret "\n")
            (cinder_create_reserve env (chomp name) (length (chomp name) + 1)))

  unfoldable pub handle_reserve_transfer : Handler H L
  unfolding atol reserve_transfer
  handle_reserve_transfer =
      with_line env "Please enter the source reserve id.\n" "Error reading id.\n" id_size (λ src.
        with_line env "Please enter the destination reserve id.\n" "Error reading id.\n" id_size
          (λ dest.
            with_line env "Please enter the amount.\n" "Error reading amount.\n" amount_size
              (λ amount.
                with_line env "Fail if insufficient? 0/1 for no fail/fail.\n"
                  "Error reading value.\n" amount_size
                  (λ fail.
                    reporting env (λ ret. with_number "Reserve transfer returned result " ret "\n")
                      (reserve_transfer env (atol src) (atol dest) (atol amount) (atol fail))))))

  unfoldable pub handle_info_reserve : Handler H L
  unfolding atol
  handle_info_reserve =
      with_line env "Please enter the reserve id.\n" "Error reading id.\n" id_size (λ id input. do
        ret ← perform env (sys_reserve_info (atol id))
        if nonzero ret
            then (do
              say env (with_number "Error getting reserve info: " ret "\n")
              pure (ret, input))
            else pure (ret, input))

  unfoldable pub handle_reserve_level : Handler H L
  unfolding atol reserve_level
  handle_reserve_level =
      with_line env "Please enter the reserve id.\n" "Error reading id.\n" id_size (λ id input. do
        ret ← reserve_level env (atol id)
        if nonzero ret
            then (do
              say env (with_number "Error getting reserve info: " ret "\n")
              pure (ret, input))
            else pure (ret, input))

  -- The report of an index that fails lacks an argument of printf, which is undefined.
  unfoldable pub list_reserves_from : (left index : ℕ) → Cmd H L (Unit {0})
  unfolding get_reserve format_d
  list_reserves_from zero index = pure tt
  list_reserves_from (suc left) index = do
    reserve ← get_reserve env index
    assert (not (is_neg reserve))
    say env (has_id (codes "Reserve ") index reserve)
    list_reserves_from left (index + 1)

  unfoldable pub handle_list_reserves : Handler H L
  unfolding num_reserves list_reserves_from
  handle_list_reserves input = do
    say env (text "Enumerating reserves:\n")
    num ← num_reserves env
    if is_neg num
        then (do
          say env (with_number "Getting number of reserves returned " num "\n")
          pure (num, input))
        else (do
          say env (with_number "Found " num " reserves:\n")
          list_reserves_from (pos_part num) 0
          say env (text "Done enumerating reserves.\n")
          pure (pos 0, input))

  -- A capability that is granted by "y".
  unfoldable pub with_capability :
      (question granted : String) (capability : ℕ) (next : ℕ → Handler H L) → Handler H L
  unfolding chomp
  with_capability question granted capability next =
      with_line env question "Error reading input.\n" id_size (λ id input.
        if same_text (chomp id) (codes "y")
        then (do say env (text granted); next capability input)
        else next 0 input)

  -- The two capabilities are different bits.
  unfoldable pub handle_expose_reserve : Handler H L
  unfolding atol with_capability cinder_expose_reserve
  handle_expose_reserve =
      with_line env "Please enter the reserve id.\n" "Error reading id.\n" id_size (λ reserve_id.
        with_line env "Please enter the target pid.\n" "Error reading pid.\n" id_size (λ pid.
          with_capability "Draw capability (y/n?) :" "Adding draw capability.\n" cap_reserve_draw
            (λ draw.
              with_capability "Modify capability (y/n?) :" "Adding reserve modify capability.\n"
                cap_reserve_modify
                (λ modify.
                  reporting env (λ ret. with_number "Expose reserve returned " ret "\n")
                    (cinder_expose_reserve env (atol pid) (atol reserve_id) (draw + modify))))))

  unfoldable pub handle_put_reserve : Handler H L
  unfolding atol cinder_put_reserve
  handle_put_reserve =
      with_line env "Please enter the reserve id.\n" "Error reading id.\n" id_size (λ id.
        reporting env (λ ret. with_number "Put reserve returns " ret "\n")
          (cinder_put_reserve env (atol id)))
