-- ===== src/Console/Ends.antt =====
-- What the commands of CinderUserspace/PAController/main.c leave of the input and of the sockets.
use cinder_userspace.Base.{
  ℕ, zero, suc, ◌+◌, ◌≤◌, ◌≡◌, refl, ap, Bool, true, false, List, [], arith, length, Option-cases,
  Bool-cases, inl, inr, if◌then◌else◌,
}
use cinder_userspace.Base.Int.{ℤ, pos, eq_ℤ, pos_part, is_zero, is_neg}
use cinder_userspace.Base.Text.{codes}
use cinder_userspace.Os.{Trace, Env, syscall}
use cinder_userspace.Os.Ledger.{opened}
use cinder_userspace.Store.{Run, pure, World, Returns, Returns-bind, Returns-mono, logged}
use cinder_userspace.Sock.{minus_one}
use cinder_userspace.Stdin.{Prompt, same_text}
use cinder_userspace.Stdin.Lines.{Shortens}
use cinder_userspace.Console.Prompts.Rest.{ask_uid-Shortens, ask_id-Shortens, ask_params-Shortens}
use cinder_userspace.Console.{Handler}
use cinder_userspace.Console.Prompts.{ask_id, ask_uid, ask_params}
use cinder_userspace.Console.Reserves.{
  sys_num_reserves, list_reserves_from, handle_list_reserves, handle_put_reserve,
  handle_info_reserve,
}
use cinder_userspace.Console.Requests.{
  handle_add_reserve_mapping, handle_del_reserve_mapping, handle_get_reserve_mapping_data,
  handle_set_reserve_mapping_data, handle_connect_to_uid_reserve,
}
use cinder_userspace.Console.Requested.{Requested, handlers-Requested}
use cinder_userspace.Console.Commands.{ignoring, run_command}

module _ {H L : Type 0} (env : Env H L) where
  -- The handler leaves no more of the input than there was, and as many open sockets.
  unfoldable pub Ends : (input : List ℕ) (w : World H L) (a : ℤ × List ℕ) (w' : World H L) → Type 0
  Ends input w a w' = (length (a.1) ≤ length input) × (opened w'.trace ≡ opened w.trace)

  list_reserves_from-opened :
      (left index : ℕ) (w : World H L)
      → Returns (λ a w'. opened w'.trace ≡ opened w.trace) (list_reserves_from env left index w)
  unfolding list_reserves_from opened
  list_reserves_from-opened zero index w = refl
  list_reserves_from-opened (suc left) index w = list_reserves_from-opened left (index + 1) _

  ignoring-Ends :
      (handler : Handler H L) (input : List ℕ) (w : World H L)
      → Returns (Ends input w) (handler input w)
      → Returns (Ends input w) (ignoring handler input w)
  unfolding Ends
  ignoring-Ends handler input w ends =
      Returns-bind (Ends input w) (Ends input w) (handler input w) _ ends (λ a w' e. e)

  handle_list-Ends :
      (input : List ℕ) (w : World H L) → Returns (Ends input w) (handle_list_reserves env input w)
  unfolding Ends handle_list_reserves opened
  handle_list-Ends input w = elim (Bool-cases (is_neg num)) [
    | inl e ↦ rw (e, Returns) (omega arith, refl)
    | inr e ↦
        rw (e, Returns)
          (Returns-bind (Ends input w) (λ a w'. opened w'.trace ≡ opened counted.trace)
            (list_reserves_from env (pos_part num) 0 counted) _
            (list_reserves_from-opened (pos_part num) 0 counted) (λ a w' o. (omega arith, o)))
  ]
    where
      num : ℤ
      num = env.result w.trace (syscall sys_num_reserves [])

      counted : World H L
      counted = logged w (syscall sys_num_reserves []) num

  handle_put-Ends :
      (input : List ℕ) (w : World H L) → Returns (Ends input w) (handle_put_reserve env input w)
  unfolding Ends handle_put_reserve opened
  handle_put-Ends input w = elim (Option-cases (ask_id input).0) [
    | inl e ↦ rw (e, Returns) (ask_id-Shortens input, refl)
    | inr (id, e) ↦ rw (e, Returns) (ask_id-Shortens input, refl)
  ]

  handle_info-Ends :
      (input : List ℕ) (w : World H L) → Returns (Ends input w) (handle_info_reserve env input w)
  unfolding Ends handle_info_reserve opened
  handle_info-Ends input w = elim (Option-cases (ask_id input).0) [
    | inl e ↦ rw (e, Returns) (ask_id-Shortens input, refl)
    | inr (id, e) ↦ rw (e, Returns) (ask_id-Shortens input, refl)
  ]

  Requested-Ends :
      {A : Type 0} (sock : ℤ) (prompt : Prompt A) (message : A → List ℕ) (input : List ℕ)
      (w : World H L) (m : Run H L (ℤ × List ℕ))
      → Shortens prompt
      → Returns (Requested env sock prompt message input w) m
      → Returns (Ends input w) m
  unfolding Ends
  Requested-Ends sock prompt message input w m short done =
      Returns-mono (Requested env sock prompt message input w) (Ends input w) m done
        (λ a w' d. (omega (arith, short input, ap length d.rest), d.opened))

  if-Ends :
      (b : Bool) (first other : Handler H L) (input : List ℕ) (w : World H L)
      → Returns (Ends input w) (first input w)
      → Returns (Ends input w) (other input w)
      → Returns (Ends input w) ((if b then first else other) input w)
  if-Ends true first other input w h k = h
  if-Ends false first other input w h k = k

  module _ (errno_set : (t : Trace) → is_zero (env.errno t) ≡ false) (sock : ℤ)
      (open_sock : eq_ℤ sock minus_one ≡ false) where
    pub run_command-Ends :
        (line input : List ℕ) (w : World H L)
        → Returns (Ends input w) (run_command env sock line input w)
    unfolding run_command Ends
    run_command-Ends line input w =
        let done = handlers-Requested env errno_set sock open_sock input w in
        let skip : Handler H L = (λ rest. pure (pos 0, rest)) in
        let info : Handler H L =
          if same_text line (codes "info") then ignoring (handle_info_reserve env) else skip in
        let put : Handler H L =
          if same_text line (codes "put") then ignoring (handle_put_reserve env) else info in
        let list : Handler H L =
          if same_text line (codes "list") then ignoring (handle_list_reserves env) else put in
        let stat : Handler H L =
          if same_text line (codes "connect")
          then handle_connect_to_uid_reserve env sock
          else list in
        let set : Handler H L =
          if same_text line (codes "set") then handle_set_reserve_mapping_data env sock else stat in
        let get : Handler H L =
          if same_text line (codes "get") then handle_get_reserve_mapping_data env sock else set in
        let del : Handler H L =
          if same_text line (codes "del") then handle_del_reserve_mapping env sock else get in
        if-Ends (same_text line (codes "add")) (handle_add_reserve_mapping env sock) del input w
          (Requested-Ends sock ask_params _ input w _ ask_params-Shortens done.0)
          (if-Ends (same_text line (codes "del")) (handle_del_reserve_mapping env sock) get input w
            (Requested-Ends sock ask_uid _ input w _ ask_uid-Shortens done.1)
            (if-Ends (same_text line (codes "get")) (handle_get_reserve_mapping_data env sock) set
              input w (Requested-Ends sock ask_uid _ input w _ ask_uid-Shortens done.2)
              (if-Ends (same_text line (codes "set")) (handle_set_reserve_mapping_data env sock)
                stat input w (Requested-Ends sock ask_params _ input w _ ask_params-Shortens done.3)
                (if-Ends (same_text line (codes "connect")) (handle_connect_to_uid_reserve env sock)
                  list input w (Requested-Ends sock ask_uid _ input w _ ask_uid-Shortens done.4)
                  (if-Ends (same_text line (codes "list")) (ignoring (handle_list_reserves env)) put
                    input w
                    (ignoring-Ends (handle_list_reserves env) input w (handle_list-Ends input w))
                    (if-Ends (same_text line (codes "put")) (ignoring (handle_put_reserve env)) info
                      input w
                      (ignoring-Ends (handle_put_reserve env) input w (handle_put-Ends input w))
                      (if-Ends (same_text line (codes "info")) (ignoring (handle_info_reserve env))
                        skip input w
                        (ignoring-Ends (handle_info_reserve env) input w (handle_info-Ends input w))
                        (omega arith, refl))))))))
