-- ===== src/Validation/Double/Rounding.antt =====
-- How far a rounded number lies from the exact one.
use native.Mathlib.Nat
use cinder_userspace.Base.{
  ℕ, zero, suc, ◌+◌, ◌-◌, ◌*◌, ◌/◌, ◌^◌, ◌≤◌, ◌<◌, ◌≡◌, arith, ltb, leb, ◌==◌, Bool-cases, inl, inr,
  ap, sym, ◌∙◌,
}
use cinder_userspace.Validation.Double.{nearest, doublings, halvings, quotient, times, truncated}

-- Half a unit at most.
pub nearest_bounds :
    (a b : ℕ) → 0 < b → (2 * (b * nearest a b) ≤ 2 * a + b) × (2 * a ≤ 2 * (b * nearest a b) + b)
unfolding nearest
nearest_bounds a b h = grind (arith, Nat.div-add-mod a b, Nat.mod-lt a h, Nat.mul-add)

doubled : (a n : ℕ) → a * 2 ^ suc n ≡ 2 * a * 2 ^ n
doubled a n = rw Nat.pow-suc (simp (Nat.mul_comm, Nat.mul_left_comm, Nat.mul_assoc))

-- Enough doublings reach the bound.
doublings-reach :
    (fuel a b : ℕ) → 2 ^ 52 * b ≤ a * 2 ^ fuel → 2 ^ 52 * b ≤ a * 2 ^ doublings fuel a b
unfolding doublings
doublings-reach zero a b h = h
doublings-reach (suc fuel) a b h = elim (Bool-cases (leb (2 ^ 52 * b) a)) [
  | inl e ↦ rw e (ground (arith, e))
  | inr e ↦
      rw (e, doubled a (doublings fuel (2 * a) b))
        (doublings-reach fuel (2 * a) b (rw (doubled a fuel) at h))
]

halvings-le : (fuel m k : ℕ) → m < 2 ^ 53 * 2 ^ k → k ≤ fuel → halvings fuel m ≤ k
unfolding halvings
halvings-le zero m k h f = omega arith
halvings-le (suc fuel) m zero h f = ground arith
halvings-le (suc fuel) m (suc k) h f = ground (arith, halvings-le fuel (m / 2) k, Nat.pow-suc 2 k)

doublings-below : (fuel a b : ℕ) → a < 2 ^ 53 * b → a * 2 ^ doublings fuel a b < 2 ^ 53 * b
unfolding doublings
doublings-below zero a b h = omega arith
doublings-below (suc fuel) a b h = elim (Bool-cases (leb (2 ^ 52 * b) a)) [
  | inl e ↦ rw e (omega arith)
  | inr e ↦
      rw (e, doubled a (doublings fuel (2 * a) b))
        (doublings-below fuel (2 * a) b (ground (arith, e)))
]

pow-add : (e d : ℕ) → 2 ^ (e + d) ≡ 2 ^ e * 2 ^ d
pow-add zero d = let z : zero + d ≡ d = omega arith in rw z (omega arith)
pow-add (suc e) d =
    let s : suc e + d ≡ suc (e + d) = omega arith in
    rw (s, Nat.pow-suc 2 (e + d), Nat.pow-suc 2 e, pow-add e d)
      (Nat.mul_right_comm (2 ^ e) (2 ^ d) 2)

-- A product of rounded numbers, rounded, against the exact one: `k` is the scale of the quotient
-- `q` of `w` by `t`, `s` that of the excess of its product with 100, and `p` what is left of it.
module _ (w t k s u q m p : ℕ) (pos_t : 0 < t) (small : t < 2 ^ 31) (split : s * u ≡ k)
    (s_small : s ≤ 128) (k_large : 2 ^ 52 ≤ k) where
  never_above :
      2 * (t * q) ≤ 2 * (w * k) + t → 2 * (s * m) ≤ 2 * (q * 100) + s → p * u ≤ m → p * t ≤ 100 * w
  never_above h1 h2 h3 = elim (Bool-cases (leb (p * t) (100 * w))) [
    | inl e ↦ ground (arith, e)
    | inr e ↦
        let over : 100 * w + 1 ≤ p * t = ground (arith, e) in
        let scaled = Nat.mul-le-mul_left k over in
        let kept = Nat.mul-le-mul_left (t * s) h3 in
        let whole : t * s * (p * u) ≡ t * p * k = omega (arith, ap (λ (x : ℕ). t * p * x) split) in
        absurd (
          omega
            (arith, scaled, kept, whole, Nat.mul-le-mul_left t h2, Nat.mul-le-mul_left t s_small))
  ]

  never_far_below :
      2 * (w * k) ≤ 2 * (t * q) + t
      → 2 * (q * 100) ≤ 2 * (s * m) + s
      → m < (p + 1) * u
      → 100 * w < (p + 2) * t
  never_far_below h1 h2 h3 = elim (Bool-cases (ltb (100 * w) ((p + 2) * t))) [
    | inl e ↦ ground (arith, e)
    | inr e ↦
        let under : (p + 2) * t ≤ 100 * w = ground (arith, e) in
        let scaled = Nat.mul-le-mul_left k under in
        let most : m ≤ (p + 1) * u = omega arith in
        let kept = Nat.mul-le-mul_left (t * s) most in
        let whole : t * s * ((p + 1) * u) ≡ t * (p + 1) * k =
          omega (arith, ap (λ (x : ℕ). t * (p + 1) * x) split) in
        absurd (
          omega (
            arith,
            scaled,
            kept,
            whole,
            Nat.mul-le-mul_left t h2,
            Nat.mul-le-mul_left t s_small,
            Nat.mul-le-mul_left t k_large,
          ))
  ]

-- The quotient of ints of 31 bits, the first no larger, times 100 and without its fraction.
module _ (w t : ℕ) (within : w ≤ t) (pos_t : 0 < t) (small : t < 2 ^ 31) where
  scale_large : 0 < w → 2 ^ 52 ≤ 2 ^ doublings 84 w t
  scale_large pos_w =
      let reach = doublings-reach 84 w t (omega arith) in
      let more = Nat.mul-le-mul_right (2 ^ doublings 84 w t) within in
      Nat.le_of_mul-le-mul_right {k = t} (omega (arith, reach, more)) pos_t

  mantissa-le : 0 < w → nearest (w * 2 ^ doublings 84 w t) t ≤ 2 ^ 53
  mantissa-le pos_w =
      let below = doublings-below 84 w t (omega arith) in
      let near = nearest_bounds (w * 2 ^ doublings 84 w t) t pos_t in
      let most : t * nearest (w * 2 ^ doublings 84 w t) t < t * (2 ^ 53 + 1) =
        omega (arith, below, near.0) in
      omega (arith, Nat.lt_of_mul-lt-mul_left t most)

  -- The percentage that is left of a quotient `q` of scale `k`.
  product_bounds :
      (k q e : ℕ)
      → 2 ^ 52 ≤ 2 ^ k
      → e ≤ 7
      → (2 * (t * q) ≤ 2 * (w * 2 ^ k) + t) × (2 * (w * 2 ^ k) ≤ 2 * (t * q) + t)
      → let p = nearest (q * 100) (2 ^ e) * 2 ^ (e - k) / 2 ^ (k - e) in
        (p * t ≤ 100 * w) × (100 * w < (p + 2) * t)
  product_bounds k q e large few near = elim (Bool-cases (leb 7 k)) [
    | inr short ↦ absurd (
        omega (
          arith,
          large,
          Nat.pow-le-pow_right {n = 2} (omega arith) {i = k} {j = 7} (ground (arith, short)),
        ))
    | inl long ↦
        let none_left : e - k ≡ 0 = ground (arith, long) in
        let whole : nearest (q * 100) (2 ^ e) * 1 ≡ nearest (q * 100) (2 ^ e) = omega arith in
        let join : e + (k - e) ≡ k = ground (arith, long) in
        let split : 2 ^ e * 2 ^ (k - e) ≡ 2 ^ k =
          sym (pow-add e (k - e)) ∙ ap (λ (x : ℕ). 2 ^ x) join in
        let s_small : 2 ^ e ≤ 128 =
          Nat.pow-le-pow_right {n = 2} (omega arith) {i = e} {j = 7} few in
        let product = nearest_bounds (q * 100) (2 ^ e) (Nat.one-le-pow e 2 (omega arith)) in
        let unit : 0 < 2 ^ (k - e) = Nat.one-le-pow (k - e) 2 (omega arith) in
        rw (none_left, whole)
          (
            never_above w t (2 ^ k) (2 ^ e) (2 ^ (k - e)) q m p pos_t small split s_small large
                (near.0) (product.0) (Nat.div-mul-le_self m (2 ^ (k - e))),
            never_far_below w t (2 ^ k) (2 ^ e) (2 ^ (k - e)) q m p pos_t small split s_small large
                (near.1) (product.1) (omega (arith, Nat.lt-div-mul-add {a = m} unit)),
          )
  ]
    where
      m : ℕ
      m = nearest (q * 100) (2 ^ e)

      p : ℕ
      p = m / 2 ^ (k - e)

  pub percent_bounds :
      (truncated (times (quotient w t) 100) * t ≤ 100 * w)
      × (100 * w < (truncated (times (quotient w t) 100) + 2) * t)
  unfolding truncated times quotient
  percent_bounds = elim (Bool-cases (w == 0)) [
    | inl e ↦ rw e (ground arith)
    | inr e ↦ rw e (
        product_bounds (doublings 84 w t) (nearest (w * 2 ^ doublings 84 w t) t)
          (halvings 64 (nearest (w * 2 ^ doublings 84 w t) t * 100))
          (scale_large (ground (arith, e)))
          (halvings-le 64 (nearest (w * 2 ^ doublings 84 w t) t * 100) 7
            (omega (arith, mantissa-le (ground (arith, e)))) (omega arith))
          (nearest_bounds (w * 2 ^ doublings 84 w t) t pos_t))
  ]
