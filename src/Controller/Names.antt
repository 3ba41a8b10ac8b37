-- ===== src/Controller/Names.antt =====
-- The names that statReserve gives to the reserve and the tap of a uid. A long uid leaves no place for
-- the whole suffix, and is itself whole.
use cinder_userspace.Base.{
  ℕ, suc, ◌+◌, ◌-◌, ◌^◌, ◌≤◌, ◌<◌, ◌≡◌, refl, sym, ◌∙◌, ap, false, List, [], ◌∷◌, ◌++◌, arith, ltb,
  mem, length, take, take_past, length-take, mem-take, mem-append, Bool-cases, inl, inr,
}
use cinder_userspace.Base.Text.{codes, digits, format_d, word_32}
use cinder_userspace.Syscall.{cinder_max_namelen}
use cinder_userspace.Stdin.{is_digit, minus, atol}
use cinder_userspace.Stdin.Numbers.{
  atol-digits, atol-minus-digits, digits-append, length-digits, mem-digits,
}
use cinder_userspace.Controller.{rsv_name, tap_name}

-- The name fits with its 0 byte, has none in it, and begins with a number whose 32 bits are the uid.
abbrev pub Named : (uid : ℕ) (name : List ℕ) → Type 0
Named uid name =
    (word_32 (atol name) ≡ uid) × (length name + 1 ≤ cinder_max_namelen) × (mem 0 name ≡ false)

module _ (c : ℕ) (suffix : List ℕ) where
  -- The cut leaves the digits and what is next to them.
  take-digits :
      (limit n : ℕ)
      → 11 ≤ limit
      → take limit (digits 10 n [] ++ c ∷ suffix)
        ≡ digits 10 n (c ∷ take (limit - length (digits 10 n []) - 1) suffix)
  take-digits limit n room =
      let short : length (digits 10 n []) ≤ 10 = omega (arith, length-digits 10 n []) in
      let one : limit - length (digits 10 n []) ≡ suc (limit - length (digits 10 n []) - 1) =
        omega (arith, short, room) in
      take_past limit (digits 10 n []) (c ∷ suffix) (omega (arith, short, room))
      ∙ (ap (λ k. digits 10 n [] ++ take k (c ∷ suffix)) one
          ∙ sym (digits-append 10 n (c ∷ take (limit - length (digits 10 n []) - 1) suffix)))

  module _ (other : is_digit c ≡ false) where
    atol-cut :
        (uid : ℕ)
        → uid < 2 ^ 32
        → word_32 (atol (take (cinder_max_namelen - 1) (format_d uid ++ c ∷ suffix))) ≡ uid
    unfolding format_d
    atol-cut uid h = elim (Bool-cases (ltb uid (2 ^ 31))) [
      | inl e ↦
          rw (e, take-digits 19 uid (omega arith), atol-digits c _ other uid (ground (arith, e)))
            (omega (arith, h))
      | inr e ↦
          let big : 2 ^ 31 ≤ uid = ground (arith, e) in
          let less : 2 ^ 32 - uid ≡ suc (2 ^ 32 - 1 - uid) = omega (arith, h) in
          let whole : word_32 (minus (2 ^ 32 - uid)) ≡ uid = rw less (omega (arith, h)) in
          rw (
            e,
            take-digits 18 (2 ^ 32 - uid) (omega arith),
            atol-minus-digits c _ other (2 ^ 32 - uid) (omega (arith, big)),
            whole,
          )
    ]

    format_d-Named :
        (uid : ℕ)
        → uid < 2 ^ 32
        → mem 0 (c ∷ suffix) ≡ false
        → Named uid (take (cinder_max_namelen - 1) (format_d uid ++ c ∷ suffix))
    unfolding format_d
    format_d-Named uid h no_zero = (
      atol-cut uid h,
      omega (arith, length-take 19 (format_d uid ++ c ∷ suffix)),
      mem-take 0 19 (format_d uid ++ c ∷ suffix) (elim (Bool-cases (ltb uid (2 ^ 31))) [
        | inl e ↦
            rw (e, mem-append 0 (digits 10 uid []) (c ∷ suffix), mem-digits 0 10 uid [] refl refl)
              no_zero
        | inr e ↦
            rw
              (
                e,
                mem-append 0 (digits 10 (2 ^ 32 - uid) []) (c ∷ suffix),
                mem-digits 0 10 (2 ^ 32 - uid) [] refl refl,
              )
              no_zero
      ]),
    )

-- The names that statReserve gives to the reserve and the tap of a uid, any of 32 bits, have with
-- their 0 byte at most CINDER_MAX_NAMELEN bytes and no 0 byte before it. Each, although it may be
-- cut, begins with a number that atol reads and whose 32 bits are the uid.
pub names_give_uid : (uid : ℕ) → uid < 2 ^ 32 → Named uid (rsv_name uid) × Named uid (tap_name uid)
unfolding rsv_name tap_name
names_give_uid uid h = (
  format_d-Named b'_' (codes "User_Reserve") refl uid h refl,
  format_d-Named b'_' (codes "User_Tap") refl uid h refl,
)
