-- ===== src/Base/Text.antt =====
-- Texts as lists of character codes, decimal digits, and the 32-bit conversions of C.
use Prim.Native.Nat.{ℕ, zero, suc, ◌+◌, ◌-◌, ◌/◌, ◌%◌, ◌^◌}
use Prim.Native.Char.{code}
use Prim.Native.String.{String}
use mathlib.Core.List.{List, [], ◌∷◌}
use cinder_userspace.Base.Tests.{ltb, if◌then◌else◌}
use cinder_userspace.Base.Int.{ℤ, pos, negsuc}

abbrev pub codes : String → List ℕ
codes String.[] = []
codes (String.◌∷◌ c s) = code c ∷ codes s

-- The decimal digits of `n` in front of a text; 10 rounds of fuel serve every 32-bit number.
unfoldable pub digits : ℕ → ℕ → List ℕ → List ℕ
digits zero n text = text
digits (suc f) n text =
    let more = digits f (n / 10) ((b'0' + n % 10) ∷ text) in
    if ltb n 10 then (b'0' + n) ∷ text else more

-- "%d" of a 32-bit number, which is read as signed.
unfoldable pub format_d : ℕ → List ℕ
unfolding digits
format_d n = if ltb n (2 ^ 31) then digits 10 n [] else b'-' ∷ digits 10 (2 ^ 32 - n) []

-- The 32 bits of an integer, and the signed number that they stand for.
abbrev pub word_32 : ℤ → ℕ
word_32 (pos n) = n % 2 ^ 32
word_32 (negsuc n) = 2 ^ 32 - 1 - n % 2 ^ 32

abbrev pub signed_32 : ℕ → ℤ
signed_32 n = if ltb n (2 ^ 31) then pos n else negsuc (2 ^ 32 - 1 - n)

-- The conversion of a 64-bit argument to `long`.
unfoldable pub to_long : ℤ → ℤ
to_long x = signed_32 (word_32 x)

-- The conversion of a signed number to uint64_t.
abbrev pub word_64 : ℤ → ℕ
word_64 (pos n) = n % 2 ^ 64
word_64 (negsuc n) = 2 ^ 64 - 1 - n % 2 ^ 64
