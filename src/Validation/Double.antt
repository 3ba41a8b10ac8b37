-- ===== src/Validation/Double.antt =====
-- The doubles of CinderUserspace/cinder_validation/reserve_tap_test/test2_subdivide_thread.c, which
-- are not negative: IEEE 754 with 53 bits, rounding to the nearest. All are far from the ends of the
-- range of the exponent.
pub mod Rounding
use cinder_userspace.Base.{
  ℕ, zero, suc, ◌+◌, ◌-◌, ◌*◌, ◌/◌, ◌%◌, ◌^◌, ltb, leb, ◌==◌, if◌then◌else◌,
}

-- The number mantissa / 2 ^ scale.
pub record Double : Type 0 where
  pub mantissa : ℕ
  pub scale : ℕ

-- The integer nearest to a / b, the even one of two.
unfoldable pub nearest : (a b : ℕ) → ℕ
nearest a b =
    if ltb (2 * (a % b)) b
    then a / b
    else if ltb b (2 * (a % b))
    then a / b + 1
    else a / b + a / b % 2

-- How often `a` is doubled until a / b has 53 bits in front of the point.
unfoldable pub doublings : (fuel a b : ℕ) → ℕ
doublings zero a b = 0
doublings (suc fuel) a b =
    let more = doublings fuel (2 * a) b in if leb (2 ^ 52 * b) a then 0 else suc more

-- How often `m` is halved until it has at most 53 bits.
unfoldable pub halvings : (fuel m : ℕ) → ℕ
halvings zero m = 0
halvings (suc fuel) m = let more = halvings fuel (m / 2) in if ltb m (2 ^ 53) then 0 else suc more

-- The quotient of two ints; 84 doublings serve every one of 31 bits.
unfoldable pub quotient : (a b : ℕ) → Double
unfolding nearest doublings
quotient a b =
    if a == 0
    then record { mantissa = 0; scale = 0 }
    else record { mantissa = nearest (a * 2 ^ doublings 84 a b) b; scale = doublings 84 a b }

-- The product with an int; 64 halvings serve.
unfoldable pub times : Double → (n : ℕ) → Double
unfolding nearest halvings
times d n =
    let excess = halvings 64 (d.mantissa * n) in
    record {
      mantissa = nearest (d.mantissa * n) (2 ^ excess) * 2 ^ (excess - d.scale);
      scale = d.scale - excess;
    }

-- The conversion to int of a number in its range.
unfoldable pub truncated : Double → ℕ
truncated d = d.mantissa / 2 ^ d.scale
