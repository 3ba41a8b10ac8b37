-- ===== src/Console/Typed.antt =====
-- What the user types at the prompts of CinderUserspace/PAController/client.c, and what the daemon
-- reads of it.
use cinder_userspace.Base.{
  ℕ, ◌^◌, ◌%◌, ◌<◌, ◌≡◌, refl, ◌∙◌, sym, ap, Bool, true, false, List, [], ◌∷◌, some, arith,
  if◌then◌else◌,
}
use cinder_userspace.Base.Int.{ℤ, pos, is_neg}
use cinder_userspace.Base.Text.{digits, word_32}
use cinder_userspace.Stdin.{fgets, atol, Prompt, answer, refuse, ◌>>=◌}
use cinder_userspace.Stdin.Lines.{fgets-line, bind-some}
use cinder_userspace.Stdin.Numbers.{atol-digits, digits-append, length-digits, mem-digits}
use cinder_userspace.Wire.{ParamsQuery}
use cinder_userspace.Console.Prompts.{amount_size, ask_uid, ask_tap_value, ask_tap_type, ask_params}

-- A number in decimal digits on a line of its own.
abbrev pub typed_number : (n : ℕ) (rest : List ℕ) → List ℕ
typed_number n rest = digits 10 n (b'\n' ∷ rest)

fgets-typed_number :
    (n : ℕ) (rest : List ℕ)
    → fgets amount_size (typed_number n rest) ≡ (some (digits 10 n (b'\n' ∷ [])), rest)
fgets-typed_number n rest =
    ap (fgets amount_size) (digits-append 10 n (b'\n' ∷ rest))
    ∙ (fgets-line amount_size (digits 10 n []) rest (mem-digits b'\n' 10 n [] refl refl)
          (omega (arith, length-digits 10 n []))
        ∙ ap (λ line. (some line, rest)) (sym (digits-append 10 n (b'\n' ∷ []))))

ask_uid-typed :
    (n : ℕ) (rest : List ℕ) → n < 2 ^ 31 → ask_uid (typed_number n rest) ≡ (some n, rest)
unfolding ask_uid
ask_uid-typed n rest h =
    let e : n % 2 ^ 32 ≡ n = omega arith in
    let f : List ℕ → Prompt ℕ = (λ line. answer (word_32 (atol line))) in
    bind-some (fgets amount_size) f (typed_number n rest) _ rest (fgets-typed_number n rest)
    ∙ rw (atol-digits b'\n' [] refl n h, e)

ask_tap_value-typed :
    (n : ℕ) (rest : List ℕ)
    → n < 2 ^ 31
    → ask_tap_value (typed_number n rest) ≡ (some (pos n), rest)
unfolding ask_tap_value
ask_tap_value-typed n rest h =
    let f : List ℕ → Prompt ℤ =
      (λ line. if is_neg (atol line) then refuse else answer (atol line)) in
    bind-some (fgets amount_size) f (typed_number n rest) _ rest (fgets-typed_number n rest)
    ∙ rw (atol-digits b'\n' [] refl n h)

-- "c" or "p".
abbrev pub typed_kind : (proportional : Bool) (rest : List ℕ) → List ℕ
typed_kind false rest = b'c' ∷ b'\n' ∷ rest
typed_kind true rest = b'p' ∷ b'\n' ∷ rest

abbrev pub kind_of : Bool → ℕ
kind_of false = 1
kind_of true = 2

ask_tap_type-typed :
    (proportional : Bool) (rest : List ℕ)
    → ask_tap_type (typed_kind proportional rest) ≡ (some (kind_of proportional), rest)
unfolding ask_tap_type
ask_tap_type-typed false rest = refl
ask_tap_type-typed true rest = refl

-- The answers to the three prompts, each on a line of its own.
abbrev pub typed_params : (uid value : ℕ) (proportional : Bool) (rest : List ℕ) → List ℕ
typed_params uid value proportional rest =
    typed_number uid (typed_number value (typed_kind proportional rest))

abbrev pub params_of : (uid value : ℕ) (proportional : Bool) → ParamsQuery
params_of uid value proportional = record {
  uid = uid;
  tap_type = kind_of proportional;
  tap_value = pos value;
}

pub ask_params-typed :
    (uid value : ℕ) (proportional : Bool) (rest : List ℕ)
    → uid < 2 ^ 31
    → value < 2 ^ 31
    → ask_params (typed_params uid value proportional rest)
      ≡ (some (params_of uid value proportional), rest)
unfolding ask_params
ask_params-typed uid value proportional rest h k =
    let last : ℕ → ℤ → ℕ → Prompt ParamsQuery = (λ uid tap_value tap_type.
      answer (record { uid = uid; tap_value = tap_value; tap_type = tap_type })) in
    let second : ℕ → ℤ → Prompt ParamsQuery =
      (λ uid tap_value. ask_tap_type >>= last uid tap_value) in
    let kind = typed_kind proportional rest in
    bind-some ask_uid (λ uid. ask_tap_value >>= second uid)
      (typed_params uid value proportional rest) uid (typed_number value kind)
      (ask_uid-typed uid _ h)
    ∙ (bind-some ask_tap_value (second uid) (typed_number value kind) (pos value) kind
          (ask_tap_value-typed value _ k)
        ∙ bind-some ask_tap_type (last uid (pos value)) kind (kind_of proportional) rest
            (ask_tap_type-typed proportional rest))
