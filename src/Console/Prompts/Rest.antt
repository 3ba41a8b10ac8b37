-- ===== src/Console/Prompts/Rest.antt =====
-- What the prompts of CinderUserspace/PAController/client.c and util.c leave of the input.
use cinder_userspace.Base.{arith, ◌+◌, ℕ, ◌||◌, List, Bool, true, false, if◌then◌else◌}
use cinder_userspace.Base.Int.{ℤ, is_neg}
use cinder_userspace.Base.Text.{codes, word_32}
use cinder_userspace.Wire.{ParamsQuery}
use cinder_userspace.Syscall.{cinder_tap_rate_constant, cinder_tap_rate_proportional}
use cinder_userspace.Stdin.{Prompt, fgets, answer, refuse, ◌>>=◌, chomp, same_text, atol}
use cinder_userspace.Stdin.Lines.{
  Shortens, fgets-Shortens, answer-Shortens, refuse-Shortens, bind-Shortens,
}
use cinder_userspace.Syscall.{cinder_max_namelen}
use cinder_userspace.Console.Prompts.{
  ask_name, ask_new_tap, ask_amount, ask_transfer, ask_tap_rate, ask_capability, ask_exposure,
  cap_reserve_draw, cap_reserve_modify, ask_id, ask_uid, ask_tap_value, tap_type_of, ask_tap_type,
  ask_params, amount_size, id_size,
}

if-Shortens :
    {A : Type 0} (b : Bool) (p q : Prompt A)
    → Shortens p
    → Shortens q
    → Shortens (if b then p else q)
if-Shortens true p q h k = h
if-Shortens false p q h k = k

pub ask_uid-Shortens : Shortens ask_uid
unfolding ask_uid
ask_uid-Shortens =
    let f : List ℕ → Prompt ℕ = (λ line. answer (word_32 (atol line))) in
    bind-Shortens (fgets amount_size) f (fgets-Shortens amount_size)
      (λ line. answer-Shortens (word_32 (atol line)))

pub ask_id-Shortens : Shortens ask_id
unfolding ask_id
ask_id-Shortens =
    let f : List ℕ → Prompt ℤ = (λ line. answer (atol line)) in
    bind-Shortens (fgets id_size) f (fgets-Shortens id_size) (λ line. answer-Shortens (atol line))

ask_tap_value-Shortens : Shortens ask_tap_value
unfolding ask_tap_value
ask_tap_value-Shortens =
    let f : List ℕ → Prompt ℤ =
      (λ line. if is_neg (atol line) then refuse else answer (atol line)) in
    bind-Shortens (fgets amount_size) f (fgets-Shortens amount_size) (λ line.
      if-Shortens (is_neg (atol line)) refuse (answer (atol line)) (refuse-Shortens ℤ)
        (answer-Shortens (atol line)))

tap_type_of-Shortens : (input : List ℕ) → Shortens (tap_type_of input)
unfolding tap_type_of
tap_type_of-Shortens input =
    let p : Prompt ℕ =
      if same_text (codes "p") input || same_text (codes "P") input
      then answer cinder_tap_rate_proportional
      else refuse in
    if-Shortens (same_text (codes "c") input || same_text (codes "C") input)
      (answer cinder_tap_rate_constant) p (answer-Shortens cinder_tap_rate_constant)
      (if-Shortens (same_text (codes "p") input || same_text (codes "P") input)
        (answer cinder_tap_rate_proportional) refuse (answer-Shortens cinder_tap_rate_proportional)
        (refuse-Shortens ℕ))

ask_tap_type-Shortens : Shortens ask_tap_type
unfolding ask_tap_type tap_type_of
ask_tap_type-Shortens =
    bind-Shortens (fgets amount_size) (λ line. tap_type_of (chomp line))
      (fgets-Shortens amount_size) (λ line. tap_type_of-Shortens (chomp line))

pub ask_params-Shortens : Shortens ask_params
unfolding ask_params
ask_params-Shortens =
    let last : ℕ → ℤ → ℕ → Prompt ParamsQuery = (λ uid tap_value tap_type.
      answer (record { uid = uid; tap_value = tap_value; tap_type = tap_type })) in
    let second : ℕ → ℤ → Prompt ParamsQuery =
      (λ uid tap_value. ask_tap_type >>= last uid tap_value) in
    bind-Shortens ask_uid (λ uid. ask_tap_value >>= second uid) ask_uid-Shortens
      (λ uid. bind-Shortens ask_tap_value (second uid) ask_tap_value-Shortens (λ value.
        bind-Shortens ask_tap_type (last uid value) ask_tap_type-Shortens (λ kind.
          answer-Shortens {A = ParamsQuery}
            (record { uid = uid; tap_value = value; tap_type = kind }))))

pub ask_name-Shortens : Shortens ask_name
unfolding ask_name
ask_name-Shortens input = ground (arith, fgets-Shortens cinder_max_namelen input)

ask_amount-Shortens : Shortens ask_amount
unfolding ask_amount
ask_amount-Shortens input = ground (arith, fgets-Shortens amount_size input)

ask_capability-Shortens : (capability : ℕ) → Shortens (ask_capability capability)
unfolding ask_capability
ask_capability-Shortens capability input = ground (arith, fgets-Shortens id_size input)

pub ask_new_tap-Shortens : Shortens ask_new_tap
unfolding ask_new_tap
ask_new_tap-Shortens = bind-Shortens ask_name behind_name ask_name-Shortens (λ name.
    bind-Shortens ask_id (behind_src name) ask_id-Shortens (λ src.
      bind-Shortens ask_id (behind_dest name src) ask_id-Shortens
        (λ dest. answer-Shortens {A = (List ℕ × ℕ) × ℤ × ℤ} (name, src, dest))))
  where
    behind_dest : (name : List ℕ × ℕ) (src : ℤ) (dest : ℤ) → Prompt ((List ℕ × ℕ) × ℤ × ℤ)
    behind_dest name src dest = answer (name, src, dest)

    behind_src : (name : List ℕ × ℕ) (src : ℤ) → Prompt ((List ℕ × ℕ) × ℤ × ℤ)
    behind_src name src = ask_id >>= behind_dest name src

    behind_name : (name : List ℕ × ℕ) → Prompt ((List ℕ × ℕ) × ℤ × ℤ)
    behind_name name = ask_id >>= behind_src name

pub ask_transfer-Shortens : Shortens ask_transfer
unfolding ask_transfer
ask_transfer-Shortens = bind-Shortens ask_id behind_src ask_id-Shortens (λ src.
    bind-Shortens ask_id (behind_dest src) ask_id-Shortens (λ dest.
      bind-Shortens ask_amount (behind_amount src dest) ask_amount-Shortens (λ amount.
        bind-Shortens ask_amount (behind_fail src dest amount) ask_amount-Shortens
          (λ fail. answer-Shortens {A = ℤ × ℤ × ℤ × ℤ} (src, dest, amount, fail)))))
  where
    behind_fail : (src : ℤ) (dest : ℤ) (amount : ℤ) (fail : ℤ) → Prompt (ℤ × ℤ × ℤ × ℤ)
    behind_fail src dest amount fail = answer (src, dest, amount, fail)

    behind_amount : (src : ℤ) (dest : ℤ) (amount : ℤ) → Prompt (ℤ × ℤ × ℤ × ℤ)
    behind_amount src dest amount = ask_amount >>= behind_fail src dest amount

    behind_dest : (src : ℤ) (dest : ℤ) → Prompt (ℤ × ℤ × ℤ × ℤ)
    behind_dest src dest = ask_amount >>= behind_amount src dest

    behind_src : (src : ℤ) → Prompt (ℤ × ℤ × ℤ × ℤ)
    behind_src src = ask_id >>= behind_dest src

pub ask_tap_rate-Shortens : Shortens ask_tap_rate
unfolding ask_tap_rate
ask_tap_rate-Shortens = bind-Shortens ask_id behind_tap_id ask_id-Shortens (λ tap_id.
    bind-Shortens ask_amount (behind_rate_type tap_id) ask_amount-Shortens (λ rate_type.
      bind-Shortens ask_amount (behind_value tap_id rate_type) ask_amount-Shortens
        (λ value. answer-Shortens {A = ℤ × ℤ × ℤ} (tap_id, rate_type, value))))
  where
    behind_value : (tap_id : ℤ) (rate_type : ℤ) (value : ℤ) → Prompt (ℤ × ℤ × ℤ)
    behind_value tap_id rate_type value = answer (tap_id, rate_type, value)

    behind_rate_type : (tap_id : ℤ) (rate_type : ℤ) → Prompt (ℤ × ℤ × ℤ)
    behind_rate_type tap_id rate_type = ask_amount >>= behind_value tap_id rate_type

    behind_tap_id : (tap_id : ℤ) → Prompt (ℤ × ℤ × ℤ)
    behind_tap_id tap_id = ask_amount >>= behind_rate_type tap_id

pub ask_exposure-Shortens : Shortens ask_exposure
unfolding ask_exposure
ask_exposure-Shortens = bind-Shortens ask_id behind_reserve_id ask_id-Shortens (λ reserve_id.
    bind-Shortens ask_id (behind_pid reserve_id) ask_id-Shortens (λ pid.
      bind-Shortens (ask_capability cap_reserve_draw) (behind_draw reserve_id pid)
        (ask_capability-Shortens cap_reserve_draw)
        (λ draw.
          bind-Shortens (ask_capability cap_reserve_modify) (behind_modify reserve_id pid draw)
            (ask_capability-Shortens cap_reserve_modify)
            (λ modify. answer-Shortens {A = ℤ × ℤ × ℕ} (reserve_id, pid, draw + modify)))))
  where
    behind_modify : (reserve_id : ℤ) (pid : ℤ) (draw : ℕ) (modify : ℕ) → Prompt (ℤ × ℤ × ℕ)
    behind_modify reserve_id pid draw modify = answer (reserve_id, pid, draw + modify)

    behind_draw : (reserve_id : ℤ) (pid : ℤ) (draw : ℕ) → Prompt (ℤ × ℤ × ℕ)
    behind_draw reserve_id pid draw =
        ask_capability cap_reserve_modify >>= behind_modify reserve_id pid draw

    behind_pid : (reserve_id : ℤ) (pid : ℤ) → Prompt (ℤ × ℤ × ℕ)
    behind_pid reserve_id pid = ask_capability cap_reserve_draw >>= behind_draw reserve_id pid

    behind_reserve_id : (reserve_id : ℤ) → Prompt (ℤ × ℤ × ℕ)
    behind_reserve_id reserve_id = ask_id >>= behind_pid reserve_id
