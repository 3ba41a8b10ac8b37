-- ===== src/Stdin/Chomp.antt =====
-- `chomp` of CinderUserspace/PAController/util.c, and the lines that it cuts.
use mathlib.Core.Option.{some-injective}
use cinder_userspace.Base.{
  subst, ℕ, zero, suc, ◌-◌, ◌<◌, ◌≡◌, refl, ap, true, false, List, [], ◌∷◌, ◌++◌, some, arith,
  length, mem, Bool, ◌||◌, ◌==◌, Bool-cases, inl, inr,
}
use cinder_userspace.Stdin.{read_line, fgets, chomp}
use cinder_userspace.Stdin.Lines.{read_line-append, length-read_line}

-- What a line and the rest are to the input.
pub record IsRead (size : ℕ) (input line rest : List ℕ) : Type 0 where
  pub fits : length line < size
  pub begins : 0 < length line
  pub whole : line ++ rest ≡ input

read_line-begins : (n c : ℕ) (input : List ℕ) → 0 < n → 0 < length (read_line n (c ∷ input)).0
unfolding read_line
read_line-begins zero c input h = absurd (omega arith)
read_line-begins (suc n) c input h = ground arith

-- Where `fgets` with a buffer of at least two bytes reads a line of the input, the line is not
-- empty, fits in the buffer with a 0 byte behind it, and is what is then missing from the input.
pub fgets-IsRead :
    (size : ℕ) (input line : List ℕ)
    → 1 < size
    → (fgets size input).0 ≡ some line
    → IsRead size input line (fgets size input).1
unfolding fgets
fgets-IsRead size [] line h e = cc
fgets-IsRead size (c ∷ input) line h e =
    subst (λ l. IsRead size (c ∷ input) l (read_line (size - 1) (c ∷ input)).1)
      (some-injective _ _ e)
      (record {
        fits = omega (arith, length-read_line (size - 1) (c ∷ input));
        begins = read_line-begins (size - 1) c input (omega arith);
        whole = read_line-append (size - 1) (c ∷ input);
      })

abbrev pub ends_text : List ℕ → Bool
ends_text [] = true
ends_text (c ∷ rest) = (c == 0) || (c == b'\n')

-- A text that was cut at its first newline or 0 byte.
pub record IsCut (str cut : List ℕ) : Type 0 where
  pub rest : List ℕ
  pub whole : cut ++ rest ≡ str
  pub ends : ends_text rest ≡ true
  pub no_newline : mem b'\n' cut ≡ false
  pub no_zero : mem 0 cut ≡ false

-- Of any text, chomp leaves what is in front of its first newline or 0 byte.
pub chomp-IsCut : (str : List ℕ) → IsCut str (chomp str)
unfolding chomp
chomp-IsCut [] = record { rest = []; whole = refl; ends = refl; no_newline = refl; no_zero = refl }
chomp-IsCut (c ∷ str) = elim (Bool-cases ((c == 0) || (c == b'\n'))) [
  | inl e ↦
      rw e (record { rest = c ∷ str; whole = refl; ends = e; no_newline = refl; no_zero = refl })
  | inr e ↦ rw e (record {
    rest = (chomp-IsCut str).rest;
    whole = ap (λ s. c ∷ s) (chomp-IsCut str).whole;
    ends = (chomp-IsCut str).ends;
    no_newline = ground (arith, e, (chomp-IsCut str).no_newline);
    no_zero = ground (arith, e, (chomp-IsCut str).no_zero);
  })
]
