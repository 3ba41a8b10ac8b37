-- ===== src/Stdin/Numbers.antt =====
-- The numbers that `atol` reads for CinderUserspace/PAController.
use mathlib.Core.List.{append_assoc}
use native.Mathlib.Nat.{pow-suc, zero-add}
use cinder_userspace.Base.{
  ℕ, zero, suc, ◌+◌, ◌-◌, ◌*◌, ◌/◌, ◌%◌, ◌^◌, ◌≤◌, ◌<◌, ◌≡◌, refl, ◌∙◌, ap, arith, List, [], ◌∷◌,
  ◌++◌, true, false, Bool-cases, inl, inr, ltb, mem, ◌==◌, length,
}
use cinder_userspace.Base.Int.{ℤ, pos, negsuc}
use cinder_userspace.Base.Text.{digits}
use cinder_userspace.Stdin.{digits_value, is_digit, is_space, at_most, minus, signed, atol}

-- The range of a `long`.
abbrev pub FitsLong : ℤ → Type 0
FitsLong (pos n) = n < 2 ^ 31
FitsLong (negsuc n) = n < 2 ^ 31

minus-FitsLong : (n : ℕ) → n ≤ 2 ^ 31 → FitsLong (minus n)
minus-FitsLong zero h = omega arith
minus-FitsLong (suc n) h = omega arith

signed-FitsLong : (text : List ℕ) → FitsLong (signed text)
signed-FitsLong [] = omega arith
signed-FitsLong (c ∷ text) = elim (Bool-cases (c == b'-')) [
  | inl e ↦ rw e (minus-FitsLong (at_most (2 ^ 31) (digits_value 0 text)) (ground arith))
  | inr e ↦ rw e (ground arith)
]

-- Whatever the text, `atol` returns a number in the range of a 32-bit `long`.
pub atol-FitsLong : (text : List ℕ) → FitsLong (atol text)
unfolding atol
atol-FitsLong [] = omega arith
atol-FitsLong (c ∷ text) = elim (Bool-cases (is_space c)) [
  | inl e ↦ rw e (atol-FitsLong text)
  | inr e ↦ rw e (signed-FitsLong (c ∷ text))
]

digits_value-digit :
    (b d : ℕ) (text : List ℕ)
    → d < 10
    → digits_value b ((b'0' + d) ∷ text) ≡ digits_value (10 * b + d) text
unfolding digits_value
digits_value-digit b d text h =
    let e : 10 * b + (b'0' + d - b'0') ≡ 10 * b + d = omega arith in
    let digit : is_digit (b'0' + d) ≡ true = ground arith in rw (digit, e)

-- The digits that `digits` writes in front of a text are read as the number.
digits_value-digits :
    (f n : ℕ) (text : List ℕ) → n < 10 ^ f → digits_value 0 (digits f n text) ≡ digits_value n text
unfolding digits
digits_value-digits zero n text h = let e : n ≡ 0 = omega arith in rw e
digits_value-digits (suc f) n text h = elim (Bool-cases (ltb n 10)) [
  | inl e ↦ rw (e, digits_value-digit 0 n text (ground arith), zero-add)
  | inr e ↦
      let again : 10 * (n / 10) + n % 10 ≡ n = omega arith in
      rw e (
        digits_value-digits f (n / 10) _ (omega (arith, pow-suc 10 f))
        ∙ (digits_value-digit (n / 10) (n % 10) text (omega arith)
            ∙ ap (λ m. digits_value m text) again))
]

-- A text that starts with a digit.
abbrev StartsWithDigit : List ℕ → Type 0
StartsWithDigit [] = ⊥
StartsWithDigit (c ∷ text) = is_digit c ≡ true

digits-StartsWithDigit :
    (f n : ℕ) (text : List ℕ) → StartsWithDigit text → StartsWithDigit (digits f n text)
unfolding digits
digits-StartsWithDigit zero n text h = h
digits-StartsWithDigit (suc f) n text h = elim (Bool-cases (ltb n 10)) [
  | inl e ↦ rw e (ground arith)
  | inr e ↦ rw e (digits-StartsWithDigit f (n / 10) ((b'0' + n % 10) ∷ text) (ground arith))
]

some_digits-StartsWithDigit : (f n : ℕ) (text : List ℕ) → StartsWithDigit (digits (suc f) n text)
unfolding digits
some_digits-StartsWithDigit f n text = elim (Bool-cases (ltb n 10)) [
  | inl e ↦ rw e (ground arith)
  | inr e ↦ rw e (digits-StartsWithDigit f (n / 10) ((b'0' + n % 10) ∷ text) (ground arith))
]

atol-StartsWithDigit :
    (text : List ℕ)
    → StartsWithDigit text
    → atol text ≡ pos (at_most (2 ^ 31 - 1) (digits_value 0 text))
unfolding atol
atol-StartsWithDigit [] h = absurd h
atol-StartsWithDigit (c ∷ text) h =
    let not_space : is_space c ≡ false = ground arith in
    let not_minus : (c == b'-') ≡ false = ground arith in
    let not_plus : (c == b'+') ≡ false = ground arith in rw (not_space, not_minus, not_plus)

-- Digits end at a character that is none.
digits_value_end : (n c : ℕ) (text : List ℕ) → is_digit c ≡ false → digits_value n (c ∷ text) ≡ n
unfolding digits_value
digits_value_end n c text other = rw other

module _ (c : ℕ) (text : List ℕ) (other : is_digit c ≡ false) where
  digits_value_before : (n : ℕ) → n < 2 ^ 32 → digits_value 0 (digits 10 n (c ∷ text)) ≡ n
  digits_value_before n h =
      digits_value-digits 10 n (c ∷ text) (omega arith) ∙ digits_value_end n c text other

  -- A number below 2^31 that is written in decimal digits, in front of a character that is no digit,
  -- is read back.
  pub atol-digits : (n : ℕ) → n < 2 ^ 31 → atol (digits 10 n (c ∷ text)) ≡ pos n
  atol-digits n h =
      let small : at_most (2 ^ 31 - 1) n ≡ n = ground arith in
      atol-StartsWithDigit (digits 10 n (c ∷ text)) (some_digits-StartsWithDigit 9 n (c ∷ text))
      ∙ ap pos (ap (at_most (2 ^ 31 - 1)) (digits_value_before n (omega arith)) ∙ small)

  -- The same behind a sign, for the negative numbers of 32 bits.
  pub atol-minus-digits : (n : ℕ) → n ≤ 2 ^ 31 → atol (b'-' ∷ digits 10 n (c ∷ text)) ≡ minus n
  unfolding atol
  atol-minus-digits n h =
      let small : at_most (2 ^ 31) n ≡ n = ground arith in
      ap minus (ap (at_most (2 ^ 31)) (digits_value_before n (omega arith)) ∙ small)

pub digits-append : (f n : ℕ) (text : List ℕ) → digits f n text ≡ digits f n [] ++ text
unfolding digits
digits-append zero n text = refl
digits-append (suc f) n text = elim (Bool-cases (ltb n 10)) [
  | inl e ↦ rw e
  | inr e ↦ rw (
    e,
    digits-append f (n / 10) ((b'0' + n % 10) ∷ text),
    digits-append f (n / 10) ((b'0' + n % 10) ∷ []),
    append_assoc,
  )
]

pub length-digits : (f n : ℕ) (text : List ℕ) → length (digits f n text) ≤ f + length text
unfolding digits
length-digits zero n text = omega arith
length-digits (suc f) n text = ground (arith, length-digits f (n / 10) ((b'0' + n % 10) ∷ text))

pub mem-digits :
    (c : ℕ) (f n : ℕ) (text : List ℕ)
    → is_digit c ≡ false
    → mem c text ≡ false
    → mem c (digits f n text) ≡ false
unfolding digits
mem-digits c zero n text other h = h
mem-digits c (suc f) n text other h =
    ground (arith, mem-digits c f (n / 10) ((b'0' + n % 10) ∷ text) other)
