-- ===== src/Validation/Subdivide/Shares.antt =====
-- The percentages of test2_subdivide_thread.c.
use native.Mathlib.Nat
use cinder_userspace.Base.{ℕ, ◌+◌, ◌*◌, ◌/◌, ◌^◌, ◌≤◌, ◌<◌, arith}
use cinder_userspace.Validation.Double.Rounding.{percent_bounds}
use cinder_userspace.Validation.Subdivide.{proportion}

-- The percentage is the exact one without its fraction, or one less.
abbrev pub IsNear : (weight total_weight : ℕ) → Type 0
IsNear weight total_weight =
    (proportion weight total_weight ≤ 100 * weight / total_weight)
    × (100 * weight / total_weight ≤ proportion weight total_weight + 1)

-- The same with the product in place of the quotient.
proportion-mul :
    (weight total_weight : ℕ)
    → weight ≤ total_weight
    → 0 < total_weight
    → total_weight < 2 ^ 31
    → (proportion weight total_weight * total_weight ≤ 100 * weight)
      × (100 * weight < (proportion weight total_weight + 2) * total_weight)
unfolding proportion
proportion-mul weight total_weight within pos_total small =
    percent_bounds weight total_weight within pos_total small

proportion-IsNear :
    (weight total_weight : ℕ)
    → 0 < total_weight
    → (proportion weight total_weight * total_weight ≤ 100 * weight)
      × (100 * weight < (proportion weight total_weight + 2) * total_weight)
    → IsNear weight total_weight
proportion-IsNear weight total_weight pos_total (above, below) = (
  (Nat.le-div_iff_mul-le pos_total).1 above,
  omega (
    arith,
    (Nat.div-lt_iff_lt-mul {x = 100 * weight} {y = proportion weight total_weight + 2} pos_total).1
        below,
  ),
)

module _ (a b c : ℕ) (some_weight : 0 < a + b + c) (fits : a + b + c < 2 ^ 31) where
  -- Of three weights whose sum is positive and below 2^31: each percentage that
  -- test2_subdivide_thread computes in doubles is the exact one without its fraction, or one less,
  -- and the three sum to no more than 100 and no less than 95.
  pub proportion_bounds :
      IsNear a (a + b + c)
      × IsNear b (a + b + c)
      × IsNear c (a + b + c)
      × (proportion a (a + b + c) + proportion b (a + b + c) + proportion c (a + b + c) ≤ 100)
      × (95 ≤ proportion a (a + b + c) + proportion b (a + b + c) + proportion c (a + b + c))
  proportion_bounds =
      let near_a = proportion-mul a (a + b + c) (omega arith) some_weight fits in
      let near_b = proportion-mul b (a + b + c) (omega arith) some_weight fits in
      let near_c = proportion-mul c (a + b + c) (omega arith) some_weight fits in
      let all : ℕ =
        proportion a (a + b + c) + proportion b (a + b + c) + proportion c (a + b + c) in
      let most : all * (a + b + c) ≤ 100 * (a + b + c) =
        omega (arith, near_a.0, near_b.0, near_c.0) in
      let least : 100 * (a + b + c) < (all + 6) * (a + b + c) =
        omega (arith, near_a.1, near_b.1, near_c.1) in
      let fewer = Nat.lt_of_mul-lt-mul_right (a + b + c) least in
      (
        proportion-IsNear a (a + b + c) some_weight near_a,
        proportion-IsNear b (a + b + c) some_weight near_b,
        proportion-IsNear c (a + b + c) some_weight near_c,
        Nat.le_of_mul-le-mul_right {k = a + b + c} most some_weight,
        omega (arith, fewer),
      )
