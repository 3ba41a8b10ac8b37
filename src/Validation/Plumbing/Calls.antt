-- ===== src/Validation/Plumbing/Calls.antt =====
-- The system calls of the handlers of cinder_ptest.c, against those of util.c.
use cinder_userspace.Base.{
  ℕ, ◌≡◌, List, [], ◌∷◌, Option, none, some, arith, Option-cases, inl, inr, Bool-cases,
}
use cinder_userspace.Base.Int.{ℤ, einval}
use cinder_userspace.Base.Text.{codes}
use cinder_userspace.Os.{Call, Trace, Env, print}
use cinder_userspace.Store.{World, Returns}
use cinder_userspace.Syscall.{cinder_max_namelen}
use cinder_userspace.Os.{
  syscall, sys_create_reserve, sys_create_tap, sys_reserve_info, sys_set_tap_rate,
  sys_expose_reserve, sys_put_reserve, sys_delete_tap,
}
use cinder_userspace.Console.Reserves.{sys_reserve_transfer, sys_reserve_level, sys_info_tap}
use cinder_userspace.Stdin.{fgets, chomp, same_text}
use cinder_userspace.Console.Prompts.{
  id_size, amount_size, ask_name, ask_id, ask_new_tap, ask_transfer, ask_tap_rate, ask_exposure,
}
use cinder_userspace.Validation.Plumbing.Reserves.{
  handle_create_reserve, handle_reserve_transfer, handle_info_reserve, handle_reserve_level,
  handle_expose_reserve, handle_put_reserve,
}
use cinder_userspace.Validation.Plumbing.Taps.{
  handle_create_tap, handle_tap_set_rate, handle_info_tap, handle_delete_tap,
}

-- The calls but for what is printed, the newest first.
abbrev pub unless_print : Call → List Call → List Call
unless_print (print line) before = before
unless_print c before = c ∷ before

unfoldable pub requests : Trace → List Call
requests [] = []
requests (e ∷ t) = unless_print e.call (requests t)

module _ {H L : Type 0} where
  -- Behind a prompt: the input that it leaves, and the one call for its answer; where it has none,
  -- -EINVAL and no call.
  abbrev pub Asks :
      {A : Type 0} (answered : Option A × List ℕ) (call : A → Call) (w : World H L)
      → ℤ × List ℕ
      → World H L
      → Type 0
  Asks (none, rest) call w (ret, left) w' =
      (left ≡ rest) × (requests w'.trace ≡ requests w.trace) × (ret ≡ einval)
  Asks (some a, rest) call w (ret, left) w' =
      (left ≡ rest) × (requests w'.trace ≡ call a ∷ requests w.trace)

module _ {H L : Type 0} (env : Env H L) (input : List ℕ) (w : World H L) where
  pub create_reserve-Asks :
      Returns
        (Asks (ask_name input) (λ (name, len). sys_create_reserve name len) w)
        (handle_create_reserve env input w)
  unfolding handle_create_reserve ask_name requests
  create_reserve-Asks = elim (Option-cases (fgets cinder_max_namelen input).0) [
    | inl e1 ↦ ground (arith, e1)
    | inr (line1, e1) ↦ ground (arith, e1)
  ]

  pub create_tap-Asks :
      Returns
        (Asks (ask_new_tap input) (λ ((name, len), src, dest). sys_create_tap name len src dest) w)
        (handle_create_tap env input w)
  unfolding handle_create_tap ask_new_tap requests
  create_tap-Asks = elim (Option-cases (fgets cinder_max_namelen input).0) [
    | inl e1 ↦ ground (arith, e1)
    | inr (line1, e1) ↦ elim (Option-cases (fgets id_size (fgets cinder_max_namelen input).1).0) [
      | inl e2 ↦ ground (arith, e1, e2)
      | inr (line2, e2) ↦
          elim (Option-cases
            (fgets id_size (fgets id_size (fgets cinder_max_namelen input).1).1).0) [
              | inl e3 ↦ ground (arith, e1, e2, e3)
              | inr (line3, e3) ↦ ground (arith, e1, e2, e3)
            ]
    ]
  ]

  pub reserve_transfer-Asks :
      Returns
        (Asks
          (ask_transfer input)
          (λ (src, dest, amount, fail).
            syscall sys_reserve_transfer (src ∷ dest ∷ amount ∷ fail ∷ []))
          w)
        (handle_reserve_transfer env input w)
  unfolding handle_reserve_transfer ask_transfer requests
  reserve_transfer-Asks = elim (Option-cases (fgets id_size input).0) [
    | inl e1 ↦ ground (arith, e1)
    | inr (line1, e1) ↦ elim (Option-cases (fgets id_size (fgets id_size input).1).0) [
      | inl e2 ↦ ground (arith, e1, e2)
      | inr (line2, e2) ↦
          elim (Option-cases (fgets amount_size (fgets id_size (fgets id_size input).1).1).0) [
            | inl e3 ↦ ground (arith, e1, e2, e3)
            | inr (line3, e3) ↦
                elim (Option-cases
                  (fgets amount_size
                    (fgets amount_size (fgets id_size (fgets id_size input).1).1).1).0) [
                      | inl e4 ↦ ground (arith, e1, e2, e3, e4)
                      | inr (line4, e4) ↦ ground (arith, e1, e2, e3, e4)
                    ]
          ]
    ]
  ]

  pub info_reserve-Asks :
      Returns (Asks (ask_id input) sys_reserve_info w) (handle_info_reserve env input w)
  unfolding handle_info_reserve ask_id requests
  info_reserve-Asks = ground arith

  pub reserve_level-Asks :
      Returns
        (Asks (ask_id input) (λ id. syscall sys_reserve_level (id ∷ [])) w)
        (handle_reserve_level env input w)
  unfolding handle_reserve_level ask_id requests
  reserve_level-Asks = ground arith

  pub tap_set_rate-Asks :
      Returns
        (Asks (ask_tap_rate input) (λ (tap, kind, value). sys_set_tap_rate tap kind value) w)
        (handle_tap_set_rate env input w)
  unfolding handle_tap_set_rate ask_tap_rate requests
  tap_set_rate-Asks = elim (Option-cases (fgets id_size input).0) [
    | inl e1 ↦ ground (arith, e1)
    | inr (line1, e1) ↦ elim (Option-cases (fgets amount_size (fgets id_size input).1).0) [
      | inl e2 ↦ ground (arith, e1, e2)
      | inr (line2, e2) ↦
          elim (Option-cases (fgets amount_size (fgets amount_size (fgets id_size input).1).1).0) [
            | inl e3 ↦ ground (arith, e1, e2, e3)
            | inr (line3, e3) ↦ ground (arith, e1, e2, e3)
          ]
    ]
  ]

  pub expose_reserve-Asks :
      Returns
        (Asks
          (ask_exposure input)
          (λ (reserve_id, pid, capabilities). sys_expose_reserve pid reserve_id capabilities)
          w)
        (handle_expose_reserve env input w)
  unfolding handle_expose_reserve ask_exposure requests
  expose_reserve-Asks = elim (Option-cases (fgets id_size input).0) [
    | inl e1 ↦ ground (arith, e1)
    | inr (line1, e1) ↦ elim (Option-cases (fgets id_size (fgets id_size input).1).0) [
      | inl e2 ↦ ground (arith, e1, e2)
      | inr (line2, e2) ↦
          elim (Option-cases (fgets id_size (fgets id_size (fgets id_size input).1).1).0) [
            | inl e3 ↦ ground (arith, e1, e2, e3)
            | inr (line3, e3) ↦ elim (Bool-cases (same_text (chomp line3) (codes "y"))) [
              | inl y3 ↦
                  elim (Option-cases
                    (fgets id_size (fgets id_size (fgets id_size (fgets id_size input).1).1).1).0) [
                      | inl e4 ↦ ground (arith, e1, e2, e3, y3, e4)
                      | inr (line4, e4) ↦ elim (Bool-cases (same_text (chomp line4) (codes "y"))) [
                        | inl y4 ↦ ground (arith, e1, e2, e3, y3, e4, y4)
                        | inr y4 ↦ ground (arith, e1, e2, e3, y3, e4, y4)
                      ]
                    ]
              | inr y3 ↦
                  elim (Option-cases
                    (fgets id_size (fgets id_size (fgets id_size (fgets id_size input).1).1).1).0) [
                      | inl e4 ↦ ground (arith, e1, e2, e3, y3, e4)
                      | inr (line4, e4) ↦ elim (Bool-cases (same_text (chomp line4) (codes "y"))) [
                        | inl y4 ↦ ground (arith, e1, e2, e3, y3, e4, y4)
                        | inr y4 ↦ ground (arith, e1, e2, e3, y3, e4, y4)
                      ]
                    ]
            ]
          ]
    ]
  ]

  pub put_reserve-Asks :
      Returns (Asks (ask_id input) sys_put_reserve w) (handle_put_reserve env input w)
  unfolding handle_put_reserve ask_id requests
  put_reserve-Asks = ground arith

  pub info_tap-Asks :
      Returns
        (Asks (ask_id input) (λ id. syscall sys_info_tap (id ∷ [])) w)
        (handle_info_tap env input w)
  unfolding handle_info_tap ask_id requests
  info_tap-Asks = ground arith

  pub delete_tap-Asks :
      Returns (Asks (ask_id input) sys_delete_tap w) (handle_delete_tap env input w)
  unfolding handle_delete_tap ask_id requests
  delete_tap-Asks = ground arith
