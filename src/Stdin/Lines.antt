-- ===== src/Stdin/Lines.antt =====
-- What is read by `fgets` and cut by `chomp` of CinderUserspace/PAController/util.c.
use cinder_userspace.Base.{
  some, Option-cases, inl, inr, ◌-◌, ap, ℕ, zero, suc, ◌≤◌, ◌<◌, ◌≡◌, refl, false, List, [], ◌∷◌,
  ◌++◌, arith, length, mem,
}
use cinder_userspace.Stdin.{read_line, Prompt, fgets, ◌>>=◌, answer, refuse}

pub read_line-append :
    (n : ℕ) (input : List ℕ) → (read_line n input).0 ++ (read_line n input).1 ≡ input
unfolding read_line
read_line-append zero input = refl
read_line-append (suc n) [] = refl
read_line-append (suc n) (c ∷ input) = ground (arith, read_line-append n input)

pub length-read_line : (n : ℕ) (input : List ℕ) → length (read_line n input).0 ≤ n
unfolding read_line
length-read_line zero input = omega arith
length-read_line (suc n) [] = omega arith
length-read_line (suc n) (c ∷ input) = ground (arith, length-read_line n input)

pub length-rest : (n : ℕ) (input : List ℕ) → length (read_line n input).1 ≤ length input
unfolding read_line
length-rest zero input = omega arith
length-rest (suc n) [] = omega arith
length-rest (suc n) (c ∷ input) = ground (arith, length-rest n input)

-- A line that ends in a newline and fits is read whole.
pub read_line-line :
    (n : ℕ) (line rest : List ℕ)
    → mem b'\n' line ≡ false
    → length line < n
    → read_line n (line ++ b'\n' ∷ rest) ≡ (line ++ b'\n' ∷ [], rest)
unfolding read_line
read_line-line zero line rest h l = absurd (omega arith)
read_line-line (suc n) [] rest h l = refl
read_line-line (suc n) (c ∷ line) rest h l =
    ground (arith, read_line-line n line rest (ground arith) (omega arith))

-- What a prompt leaves of the input is no longer than the input.
abbrev pub Shortens : {A : Type 0} → Prompt A → Type 0
Shortens prompt = (input : List ℕ) → length (prompt input).1 ≤ length input

pub fgets-Shortens : (size : ℕ) → Shortens (fgets size)
unfolding fgets
fgets-Shortens size [] = omega arith
fgets-Shortens size (c ∷ input) = length-rest (size - 1) (c ∷ input)

rest_shorter :
    (n c : ℕ) (input : List ℕ) → 0 < n → length (read_line n (c ∷ input)).1 ≤ length input
unfolding read_line
rest_shorter zero c input h = absurd (omega arith)
rest_shorter (suc n) c input h = ground (arith, length-rest n input)

-- A line is read with at least one byte of it.
pub fgets_shorter :
    (size : ℕ) (line input : List ℕ)
    → 1 < size
    → (fgets size input).0 ≡ some line
    → length (fgets size input).1 < length input
unfolding fgets
fgets_shorter size line [] small h = cc
fgets_shorter size line (c ∷ input) small h =
    omega (arith, rest_shorter (size - 1) c input (omega arith))

pub answer-Shortens : {A : Type 0} (a : A) → Shortens (answer a)
answer-Shortens a input = omega arith

pub refuse-Shortens : (A : Type 0) → Shortens (refuse {A = A})
refuse-Shortens A input = omega arith

pub bind-Shortens :
    {A B : Type 0} (p : Prompt A) (f : A → Prompt B)
    → Shortens p
    → ((a : A) → Shortens (f a))
    → Shortens (p >>= f)
bind-Shortens p f h k input = elim (Option-cases (p input).0) [
  | inl e ↦ rw (◌>>=◌, e) (h input)
  | inr (a, e) ↦ rw (◌>>=◌, e) (omega (arith, h input, k a (p input).1))
]

-- A line that fits in the buffer is read whole.
pub fgets-line :
    (size : ℕ) (line rest : List ℕ)
    → mem b'\n' line ≡ false
    → length line < size - 1
    → fgets size (line ++ b'\n' ∷ rest) ≡ (some (line ++ b'\n' ∷ []), rest)
unfolding fgets
fgets-line size [] rest h l = ap (λ r. (some r.0, r.1)) (read_line-line (size - 1) [] rest h l)
fgets-line size (c ∷ line) rest h l =
    ap (λ r. (some r.0, r.1)) (read_line-line (size - 1) (c ∷ line) rest h l)

pub bind-some :
    {A B : Type 0} (p : Prompt A) (f : A → Prompt B) (input : List ℕ) (a : A) (rest : List ℕ)
    → p input ≡ (some a, rest)
    → (p >>= f) input ≡ f a rest
bind-some p f input a rest e = rw (◌>>=◌, ap (λ r. r.0) e, ap (λ r. r.1) e)
