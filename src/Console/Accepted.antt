-- ===== src/Console/Accepted.antt =====
-- What the prompts of CinderUserspace/PAController accept, against what the daemon and the kernel
-- take.
use mathlib.Core.Option.{some-injective}
use cinder_userspace.Base.{
  subst, if◌then◌else◌, ℕ, ◌+◌, ◌≤◌, ◌<◌, ◌^◌, ◌≡◌, refl, ap, sym, false, List, some, none, arith,
  length, length-append, mem, ◌||◌, Bool-cases, Option-cases, inl, inr, ◌⊎◌,
}
use cinder_userspace.Base.Int.{ℤ, pos, negsuc, is_neg}
use cinder_userspace.Base.Text.{codes, word_32}
use cinder_userspace.Syscall.{cinder_max_namelen}
use cinder_userspace.Controller.{bad_type_or_sign}
use cinder_userspace.Wire.{
  ParamsQuery, read_set_query, read_add_query, write_set_query, write_add_query,
}
use cinder_userspace.Wire.RoundTrip.{Fits64, queries_round_trip}
use cinder_userspace.Stdin.{Prompt, same_text, refuse, fgets, chomp, atol, answer, ◌>>=◌}
use cinder_userspace.Stdin.Chomp.{fgets-IsRead, chomp-IsCut}
use cinder_userspace.Stdin.Numbers.{FitsLong, atol-FitsLong}
use cinder_userspace.Console.Prompts.{
  tap_type_of, ask_name, ask_uid, ask_tap_value, ask_tap_type, ask_params, amount_size,
}

-- Behind a prompt that was answered, the last one was.
bind_answered :
    {A B : Type 0} (p : Prompt A) (f : A → Prompt B) (input : List ℕ) (b : B)
    → ((p >>= f) input).0 ≡ some b
    → (a : A) × ((p input).0 ≡ some a) × ((f a (p input).1).0 ≡ some b)
bind_answered p f input b e = elim (Option-cases (p input).0) [
  | inl n ↦ (let no : none ≡ some b = rw (◌>>=◌, n) at e in cc)
  | inr (a, s) ↦ (a, s, (rw (◌>>=◌, s) at e))
]

word_32-lt : (a : ℤ) → word_32 a < 2 ^ 32
word_32-lt (pos n) = omega arith
word_32-lt (negsuc n) = omega arith

ask_uid-lt : (input : List ℕ) (uid : ℕ) → (ask_uid input).0 ≡ some uid → uid < 2 ^ 32
unfolding ask_uid
ask_uid-lt input uid e =
    let f : List ℕ → Prompt ℕ = (λ line. answer (word_32 (atol line))) in
    let (line, read, last) = bind_answered (fgets amount_size) f input uid e in
    subst (λ n. n < 2 ^ 32) (some-injective _ _ last) (word_32-lt (atol line))

ask_tap_value-Fits :
    (input : List ℕ) (value : ℤ)
    → (ask_tap_value input).0 ≡ some value
    → (is_neg value ≡ false) × Fits64 value
unfolding ask_tap_value
ask_tap_value-Fits input value e =
    let (line, read, last) = bind_answered (fgets amount_size) not_negative input value e in
    elim (Bool-cases (is_neg (atol line))) [
      | inl n ↦ absurd (let no : none ≡ some value = rw n at last in cc)
      | inr n ↦
          let same : atol line ≡ value = some-injective _ _ (rw n at last) in
          subst (λ v. (is_neg v ≡ false) × Fits64 v) same
            (n, long_fits (atol line) (atol-FitsLong line))
    ]
  where
    not_negative : List ℕ → Prompt ℤ
    not_negative line = if is_neg (atol line) then refuse else answer (atol line)

    long_fits : (v : ℤ) → FitsLong v → Fits64 v
    long_fits (pos n) h = omega arith
    long_fits (negsuc n) h = omega arith

tap_type_of_cases :
    (input text : List ℕ) (kind : ℕ)
    → (tap_type_of text input).0 ≡ some kind
    → (kind ≡ 1) ⊎ (kind ≡ 2)
unfolding tap_type_of
tap_type_of_cases input text kind e =
    elim (Bool-cases (same_text (codes "c") text || same_text (codes "C") text)) [
      | inl c ↦ inl (sym (some-injective _ _ (rw c at e)))
      | inr c ↦ elim (Bool-cases (same_text (codes "p") text || same_text (codes "P") text)) [
        | inl p ↦ inr (sym (some-injective _ _ (rw (c, p) at e)))
        | inr p ↦ absurd (let no : none ≡ some kind = rw (c, p) at e in cc)
      ]
    ]

ask_tap_type_cases :
    (input : List ℕ) (kind : ℕ) → (ask_tap_type input).0 ≡ some kind → (kind ≡ 1) ⊎ (kind ≡ 2)
unfolding ask_tap_type
ask_tap_type_cases input kind e =
    let f : List ℕ → Prompt ℕ = (λ line. tap_type_of (chomp line)) in
    let (line, read, last) = bind_answered (fgets amount_size) f input kind e in
    tap_type_of_cases _ (chomp line) kind last

-- The parameters that the prompts accept go over the wire and back unchanged, the uid has 32 bits,
-- and the daemon refuses neither their type nor their sign.
pub ask_params-accepted :
    (input : List ℕ) (q : ParamsQuery)
    → (ask_params input).0 ≡ some q
    → (bad_type_or_sign q.tap_type q.tap_value ≡ false)
      × (q.uid < 2 ^ 32)
      × (read_set_query (write_set_query q) ≡ q)
      × (read_add_query (write_add_query q) ≡ q)
unfolding ask_params
ask_params-accepted input q e =
    let last : ℕ → ℤ → ℕ → Prompt ParamsQuery = (λ uid tap_value tap_type.
      answer (record { uid = uid; tap_value = tap_value; tap_type = tap_type })) in
    let second : ℕ → ℤ → Prompt ParamsQuery =
      (λ uid tap_value. ask_tap_type >>= last uid tap_value) in
    let (uid, e1, r1) = bind_answered ask_uid (λ uid. ask_tap_value >>= second uid) input q e in
    let (value, e2, r2) = bind_answered ask_tap_value (second uid) (ask_uid input).1 q r1 in
    let (kind, e3, r3) =
      bind_answered ask_tap_type (last uid value) (ask_tap_value (ask_uid input).1).1 q r2 in
    subst Accepted (some-injective _ _ r3) (
      accepted uid value kind (ask_uid-lt input uid e1)
        (ask_tap_value-Fits (ask_uid input).1 value e2)
        (ask_tap_type_cases (ask_tap_value (ask_uid input).1).1 kind e3))
  where
    Accepted : ParamsQuery → Type 0
    Accepted q =
        (bad_type_or_sign q.tap_type q.tap_value ≡ false)
        × (q.uid < 2 ^ 32)
        × (read_set_query (write_set_query q) ≡ q)
        × (read_add_query (write_add_query q) ≡ q)

    accepted :
        (uid : ℕ) (value : ℤ) (kind : ℕ)
        → uid < 2 ^ 32
        → (is_neg value ≡ false) × Fits64 value
        → (kind ≡ 1) ⊎ (kind ≡ 2)
        → Accepted (record { uid = uid; tap_type = kind; tap_value = value })
    accepted uid value kind small (positive, fits) cases =
        let q : ParamsQuery = record { uid = uid; tap_type = kind; tap_value = value } in
        let trip = queries_round_trip q (omega arith) (omega (arith, cases)) fits in
        (ground (arith, positive, cases), small, trip.0, trip.1)

-- A name that is read, from any input, has with its 0 byte the length that is passed to the kernel,
-- at most 20, and holds no newline and no 0 byte.
pub ask_name-bounds :
    (input name : List ℕ) (len : ℕ)
    → (ask_name input).0 ≡ some (name, len)
    → (length name + 1 ≡ len)
      × (len ≤ cinder_max_namelen)
      × (mem b'\n' name ≡ false)
      × (mem 0 name ≡ false)
unfolding ask_name
ask_name-bounds input name len e =
    let f : List ℕ → Prompt (List ℕ × ℕ) = (λ line. answer (chomp line, length (chomp line) + 1)) in
    let (line, read, last) = bind_answered (fgets cinder_max_namelen) f input (name, len) e in
    let same = some-injective (chomp line, length (chomp line) + 1) (name, len) last in
    let cut = chomp-IsCut line in
    let fits = (fgets-IsRead cinder_max_namelen input line (omega arith) read).fits in
    subst
      (λ r.
        (length (r.0) + 1 ≡ r.1)
        × (r.1 ≤ cinder_max_namelen)
        × (mem b'\n' (r.0) ≡ false)
        × (mem 0 (r.0) ≡ false))
      same
      (
        refl,
        omega (arith, length-append (chomp line) cut.rest, ap length cut.whole, fits),
        cut.no_newline,
        cut.no_zero,
      )
