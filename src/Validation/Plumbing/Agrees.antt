-- ===== src/Validation/Plumbing/Agrees.antt =====
-- The handlers of cinder_ptest.c and those of util.c, which they repeat.
use cinder_userspace.Base.{
  ◌≡◌, refl, List, ℕ, [], ◌∷◌, Option, none, some, arith, Option-cases, inl, inr,
}
use cinder_userspace.Base.Int.{ℤ}
use cinder_userspace.Os.{
  Call, Env, syscall, sys_create_reserve, sys_create_tap, sys_reserve_info, sys_set_tap_rate,
  sys_expose_reserve, sys_put_reserve, sys_delete_tap,
}
use cinder_userspace.Store.{World, Run, Returns, Returns-mono, perform}
use cinder_userspace.Stdin.{Prompt}
use cinder_userspace.Console.{on_answer}
use cinder_userspace.Console.Prompts.{
  ask_name, ask_id, ask_new_tap, ask_transfer, ask_tap_rate, ask_exposure,
}
use cinder_userspace.Console.Reserves
use cinder_userspace.Console.Reserves.{sys_reserve_transfer, sys_reserve_level, sys_info_tap}
use cinder_userspace.Validation.Plumbing.Reserves as Tested
use cinder_userspace.Validation.Plumbing.Taps as TestedTaps
use cinder_userspace.Validation.Plumbing.Calls.{
  requests, unless_print, Asks, create_reserve-Asks, create_tap-Asks, reserve_transfer-Asks,
  info_reserve-Asks, reserve_level-Asks, tap_set_rate-Asks, expose_reserve-Asks, put_reserve-Asks,
  info_tap-Asks, delete_tap-Asks,
}

module _ {H L : Type 0} where
  -- Two runs leave the same of the input, and have made the same calls but for what they print.
  abbrev pub Alike : (m n : Run H L (ℤ × List ℕ)) → Type 0
  Alike m n =
      Returns (λ a w'. Returns (λ b v'. (a.1 ≡ b.1) × (requests w'.trace ≡ requests v'.trace)) n) m

  alike_lem :
      {A : Type 0} (o : Option A × List ℕ) (call : A → Call) (w : World H L)
      (m n : Run H L (ℤ × List ℕ))
      → Returns (Asks o call w) m
      → Returns (Asks o call w) n
      → Alike m n
  alike_lem {A = A} (o, rest) call w m n h k =
      Returns-mono (Asks (o, rest) call w) _ m h
        (λ a w' d. Returns-mono (Asks (o, rest) call w) _ n k (λ b v' e. same o a w' d b v' e))
    where
      same :
          (o : Option A) (a : ℤ × List ℕ) (w' : World H L)
          → Asks (o, rest) call w a w'
          → (b : ℤ × List ℕ) (v' : World H L) → Asks (o, rest) call w b v'
          → (a.1 ≡ b.1) × (requests w'.trace ≡ requests v'.trace)
      same none a w' d b v' e = ground (arith, d, e)
      same (some x) a w' d b v' e = ground (arith, d, e)

  on_answer-Asks :
      {A : Type 0} (env : Env H L) (prompt : Prompt A) (call : A → Call) (input : List ℕ)
      (w : World H L)
      → ((a : A) → unless_print (call a) (requests w.trace) ≡ call a ∷ requests w.trace)
      → Returns (Asks (prompt input) call w) (on_answer prompt (λ a. perform env (call a)) input w)
  unfolding requests
  on_answer-Asks env prompt call input w silent = elim (Option-cases (prompt input).0) [
    | inl e ↦ ground (arith, e)
    | inr (a, e) ↦ ground (arith, e, silent a)
  ]

module _ {H L : Type 0} (env : Env H L) (input : List ℕ) (w : World H L) where
  create_reserve-Alike :
      Alike (Reserves.handle_create_reserve env input w) (Tested.handle_create_reserve env input w)
  unfolding Reserves.handle_create_reserve requests
  create_reserve-Alike =
      alike_lem (ask_name input) (λ (name, len). sys_create_reserve name len) w _ _
        (on_answer-Asks env ask_name (λ (name, len). sys_create_reserve name len) input w
          (λ a. refl))
        (create_reserve-Asks env input w)

  create_tap-Alike :
      Alike (Reserves.handle_create_tap env input w) (TestedTaps.handle_create_tap env input w)
  unfolding Reserves.handle_create_tap requests
  create_tap-Alike =
      alike_lem (ask_new_tap input) (λ ((name, len), src, dest). sys_create_tap name len src dest) w
        _ _
        (on_answer-Asks env ask_new_tap
          (λ ((name, len), src, dest). sys_create_tap name len src dest) input w (λ a. refl))
        (create_tap-Asks env input w)

  reserve_transfer-Alike :
      Alike
        (Reserves.handle_reserve_transfer env input w)
        (Tested.handle_reserve_transfer env input w)
  unfolding Reserves.handle_reserve_transfer requests
  reserve_transfer-Alike =
      alike_lem (ask_transfer input)
        (λ (src, dest, amount, fail).
          syscall sys_reserve_transfer (src ∷ dest ∷ amount ∷ fail ∷ []))
        w _ _
        (on_answer-Asks env ask_transfer
          (λ (src, dest, amount, fail).
            syscall sys_reserve_transfer (src ∷ dest ∷ amount ∷ fail ∷ []))
          input w (λ a. refl))
        (reserve_transfer-Asks env input w)

  info_reserve-Alike :
      Alike (Reserves.handle_info_reserve env input w) (Tested.handle_info_reserve env input w)
  unfolding Reserves.handle_info_reserve requests
  info_reserve-Alike =
      alike_lem (ask_id input) sys_reserve_info w _ _
        (on_answer-Asks env ask_id sys_reserve_info input w (λ a. refl))
        (info_reserve-Asks env input w)

  reserve_level-Alike :
      Alike (Reserves.handle_reserve_level env input w) (Tested.handle_reserve_level env input w)
  unfolding Reserves.handle_reserve_level requests
  reserve_level-Alike =
      alike_lem (ask_id input) (λ id. syscall sys_reserve_level (id ∷ [])) w _ _
        (on_answer-Asks env ask_id (λ id. syscall sys_reserve_level (id ∷ [])) input w (λ a. refl))
        (reserve_level-Asks env input w)

  tap_set_rate-Alike :
      Alike (Reserves.handle_tap_set_rate env input w) (TestedTaps.handle_tap_set_rate env input w)
  unfolding Reserves.handle_tap_set_rate requests
  tap_set_rate-Alike =
      alike_lem (ask_tap_rate input) (λ (tap, kind, value). sys_set_tap_rate tap kind value) w _ _
        (on_answer-Asks env ask_tap_rate (λ (tap, kind, value). sys_set_tap_rate tap kind value)
          input w (λ a. refl))
        (tap_set_rate-Asks env input w)

  expose_reserve-Alike :
      Alike (Reserves.handle_expose_reserve env input w) (Tested.handle_expose_reserve env input w)
  unfolding Reserves.handle_expose_reserve requests
  expose_reserve-Alike =
      alike_lem (ask_exposure input)
        (λ (reserve_id, pid, capabilities). sys_expose_reserve pid reserve_id capabilities) w _ _
        (on_answer-Asks env ask_exposure
          (λ (reserve_id, pid, capabilities). sys_expose_reserve pid reserve_id capabilities) input
          w (λ a. refl))
        (expose_reserve-Asks env input w)

  put_reserve-Alike :
      Alike (Reserves.handle_put_reserve env input w) (Tested.handle_put_reserve env input w)
  unfolding Reserves.handle_put_reserve requests
  put_reserve-Alike =
      alike_lem (ask_id input) sys_put_reserve w _ _
        (on_answer-Asks env ask_id sys_put_reserve input w (λ a. refl))
        (put_reserve-Asks env input w)

  info_tap-Alike :
      Alike (Reserves.handle_info_tap env input w) (TestedTaps.handle_info_tap env input w)
  unfolding Reserves.handle_info_tap requests
  info_tap-Alike =
      alike_lem (ask_id input) (λ id. syscall sys_info_tap (id ∷ [])) w _ _
        (on_answer-Asks env ask_id (λ id. syscall sys_info_tap (id ∷ [])) input w (λ a. refl))
        (info_tap-Asks env input w)

  delete_tap-Alike :
      Alike (Reserves.handle_delete_tap env input w) (TestedTaps.handle_delete_tap env input w)
  unfolding Reserves.handle_delete_tap requests
  delete_tap-Alike =
      alike_lem (ask_id input) sys_delete_tap w _ _
        (on_answer-Asks env ask_id sys_delete_tap input w (λ a. refl)) (delete_tap-Asks env input w)

  -- Ten handlers stand in cinder_ptest.c and, for the controller program, in util.c: those that
  -- create a reserve or a tap, transfer, get the information or the level of a reserve, set a rate,
  -- expose or put a reserve, and get the information of a tap or delete it. From the same state, on
  -- any input, the two versions leave the same rest of the input and make the same calls, but for
  -- what they print.
  pub handlers-Alike :
      Alike (Reserves.handle_create_reserve env input w) (Tested.handle_create_reserve env input w)
      × Alike (Reserves.handle_create_tap env input w) (TestedTaps.handle_create_tap env input w)
      × Alike
          (Reserves.handle_reserve_transfer env input w)
          (Tested.handle_reserve_transfer env input w)
      × Alike (Reserves.handle_info_reserve env input w) (Tested.handle_info_reserve env input w)
      × Alike (Reserves.handle_reserve_level env input w) (Tested.handle_reserve_level env input w)
      × Alike
          (Reserves.handle_tap_set_rate env input w)
          (TestedTaps.handle_tap_set_rate env input w)
      × Alike
          (Reserves.handle_expose_reserve env input w)
          (Tested.handle_expose_reserve env input w)
      × Alike (Reserves.handle_put_reserve env input w) (Tested.handle_put_reserve env input w)
      × Alike (Reserves.handle_info_tap env input w) (TestedTaps.handle_info_tap env input w)
      × Alike (Reserves.handle_delete_tap env input w) (TestedTaps.handle_delete_tap env input w)
  handlers-Alike = (
    create_reserve-Alike, create_tap-Alike, reserve_transfer-Alike, info_reserve-Alike,
    reserve_level-Alike, tap_set_rate-Alike, expose_reserve-Alike, put_reserve-Alike,
    info_tap-Alike, delete_tap-Alike,
  )
