-- ===== src/Stdin.antt =====
-- What the C library does for the prompts of CinderUserspace/PAController and
-- CinderUserspace/cinder_validation, and their own `chomp`. Standard input is the bytes that are
-- still to be read, a line is what `fgets` stored before its 0 byte.
pub mod Lines
pub mod Numbers
pub mod Chomp
use cinder_userspace.Base.{
  ℕ, zero, suc, ◌+◌, ◌-◌, ◌*◌, ◌^◌, ◌&&◌, ◌||◌, Bool, true, false, List, [], ◌∷◌, Option, none,
  some, ◌==◌, ltb, leb, if◌then◌else◌,
}
use cinder_userspace.Base.Int.{ℤ, pos, negsuc}

-- At most `n` bytes, up to the first newline, and the rest.
unfoldable pub read_line : (n : ℕ) → List ℕ → List ℕ × List ℕ
read_line zero input = ([], input)
read_line (suc n) [] = ([], [])
read_line (suc n) (c ∷ input) =
    let (line, rest) = read_line n input in if c == b'\n' then (c ∷ [], input) else (c ∷ line, rest)

-- A prompt reads from the input. `none` is the end of the input, where a handler stops.
abbrev pub Prompt : Type 0 → Type 0
Prompt A = List ℕ → Option A × List ℕ

-- `fgets` with a buffer of `size` bytes; `none` is NULL.
unfoldable pub fgets : (size : ℕ) → Prompt (List ℕ)
unfolding read_line
fgets size [] = (none, [])
fgets size (c ∷ input) = let (line, rest) = read_line (size - 1) (c ∷ input) in (some line, rest)

abbrev pub answer : {A : Type 0} → A → Prompt A
answer a input = (some a, input)

abbrev pub refuse : {A : Type 0} → Prompt A
refuse input = (none, input)

infixl 5 ◌>>=◌
abbrev pub ◌>>=◌ : {A B : Type 0} → Prompt A → (A → Prompt B) → Prompt B
(p >>= f) input = elim ((p input).0) [ none ↦ (none, (p input).1) | some a ↦ f a ((p input).1) ]

-- util.c; the 0 byte ends the text.
unfoldable pub chomp : List ℕ → List ℕ
chomp [] = []
chomp (c ∷ str) = let rest = chomp str in if (c == 0) || (c == b'\n') then [] else c ∷ rest

-- `strcmp` returned 0.
abbrev pub same_text : List ℕ → List ℕ → Bool
same_text [] [] = true
same_text (a ∷ s) (b ∷ t) = (a == b) && same_text s t
same_text [] (b ∷ t) = false
same_text (a ∷ s) [] = false

abbrev pub is_space : ℕ → Bool
is_space c = (c == 32) || leb 9 c && leb c 13

abbrev pub is_digit : ℕ → Bool
is_digit c = leb b'0' c && leb c b'9'

-- The value of the digits in front of a text, behind the digits read before.
unfoldable pub digits_value : (before : ℕ) → List ℕ → ℕ
digits_value before [] = before
digits_value before (c ∷ text) =
    let more = digits_value (10 * before + (c - b'0')) text in if is_digit c then more else before

-- `strtol` stops at the ends of the range of `long`.
abbrev pub at_most : (limit n : ℕ) → ℕ
at_most limit n = if ltb limit n then limit else n

abbrev pub minus : ℕ → ℤ
minus zero = pos 0
minus (suc n) = negsuc n

abbrev pub signed : List ℕ → ℤ
signed [] = pos 0
signed (c ∷ text) =
    if c == b'-'
    then minus (at_most (2 ^ 31) (digits_value 0 text))
    else pos (at_most (2 ^ 31 - 1) (digits_value 0 (if c == b'+' then text else c ∷ text)))

-- `atol`, and `atoi` too where a `long` has the 32 bits of an int: white space, a sign, digits.
unfoldable pub atol : List ℕ → ℤ
unfolding digits_value
atol [] = pos 0
atol (c ∷ text) = let rest = atol text in if is_space c then rest else signed (c ∷ text)
