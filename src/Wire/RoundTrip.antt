-- ===== src/Wire/RoundTrip.antt =====
-- Writing and reading the queries of CinderUserspace/PowerArbiter/protocol.h.
use native.Mathlib.Nat.{pow-suc}
use cinder_userspace.Base.{
  ℕ, zero, suc, ◌+◌, ◌/◌, ◌^◌, ◌<◌, ◌≡◌, refl, ap, List, [], ◌++◌, arith, length, length-append,
  take, drop, ◌∙◌,
}
use mathlib.Core.List.{append-nil}
use cinder_userspace.Base.Int.{ℤ, pos, negsuc}
use cinder_userspace.Base.Text.{word_64}
use cinder_userspace.Wire.{
  bytes, number, field, signed_64, params_query_size, ParamsQuery, read_set_query, read_add_query,
  write_set_query, write_add_query,
}

-- The range of int64_t.
abbrev pub Fits64 : ℤ → Type 0
Fits64 (pos n) = n < 2 ^ 63
Fits64 (negsuc n) = n < 2 ^ 63

pub length-bytes : (k n : ℕ) → length (bytes k n) ≡ k
unfolding bytes
length-bytes zero n = refl
length-bytes (suc k) n = ap suc (length-bytes k (n / 256))

pub take-bytes : (k n : ℕ) (rest : List ℕ) → take k (bytes k n ++ rest) ≡ bytes k n
unfolding bytes
take-bytes zero n rest = refl
take-bytes (suc k) n rest = rw (take-bytes k (n / 256) rest)

pub drop-bytes : (k j n : ℕ) (rest : List ℕ) → drop (k + j) (bytes k n ++ rest) ≡ drop j rest
unfolding bytes
drop-bytes zero j n rest = let e : zero + j ≡ j = omega arith in rw e
drop-bytes (suc k) j n rest =
    let e : suc k + j ≡ suc (k + j) = omega arith in rw e (drop-bytes k j (n / 256) rest)

pub number-bytes : (k n : ℕ) → n < 256 ^ k → number (bytes k n) ≡ n
unfolding bytes number
number-bytes zero n h = omega arith
number-bytes (suc k) n h = omega (arith, number-bytes k (n / 256) (omega (arith, pow-suc 256 k)))

pub signed-word_64 : (v : ℤ) → Fits64 v → signed_64 (word_64 v) ≡ v
signed-word_64 (pos n) h = ground arith
signed-word_64 (negsuc n) h = ground arith

pub word_64-lt : (v : ℤ) → word_64 v < 2 ^ 64
word_64-lt (pos n) = omega arith
word_64-lt (negsuc n) = omega arith

-- The three fields of a message of three 64-bit numbers.
fields_of_three :
    (a b c : ℕ)
    → a < 2 ^ 64
    → b < 2 ^ 64
    → c < 2 ^ 64
    → let m = bytes 8 a ++ (bytes 8 b ++ bytes 8 c) in
      (field 0 8 m ≡ a) × (field 8 8 m ≡ b) × (field 16 8 m ≡ c)
fields_of_three a b c ha hb hc = (
  ap number (take-bytes 8 a _) ∙ number-bytes 8 a ha,
  ap (λ m. number (take 8 m)) (drop-bytes 8 0 a _)
      ∙ (ap number (take-bytes 8 b _) ∙ number-bytes 8 b hb),
  ap (λ m. number (take 8 m)) (drop-bytes 8 8 a _ ∙ drop-bytes 8 0 b _)
      ∙ (ap number last ∙ number-bytes 8 c hc),
)
  where
    last : take 8 (bytes 8 c) ≡ bytes 8 c
    last = rw (append-nil (bytes 8 c)) at (take-bytes 8 c [])

pub length_of_three : (a b c : ℕ) → length (bytes 8 a ++ (bytes 8 b ++ bytes 8 c)) ≡ 24
length_of_three a b c = omega (
  arith,
  length-append (bytes 8 a) (bytes 8 b ++ bytes 8 c),
  length-append (bytes 8 b) (bytes 8 c),
  length-bytes 8 a,
  length-bytes 8 b,
  length-bytes 8 c,
)

module _ (q : ParamsQuery) (uid : q.uid < 2 ^ 64) (kind : q.tap_type < 2 ^ 64)
    (value : Fits64 q.tap_value) where
  set_query_round_trip : read_set_query (write_set_query q) ≡ q
  unfolding read_set_query write_set_query
  set_query_round_trip =
      let f =
        fields_of_three q.uid q.tap_type (word_64 q.tap_value) uid kind (word_64-lt q.tap_value) in
      let signed = ap signed_64 f.2 ∙ signed-word_64 q.tap_value value in
      λ i. record { uid = f.0 i; tap_type = f.1 i; tap_value = signed i }

  add_query_round_trip : read_add_query (write_add_query q) ≡ q
  unfolding read_add_query write_add_query
  add_query_round_trip =
      let f =
        fields_of_three q.uid (word_64 q.tap_value) q.tap_type uid (word_64-lt q.tap_value) kind in
      let signed = ap signed_64 f.1 ∙ signed-word_64 q.tap_value value in
      λ i. record { uid = f.0 i; tap_type = f.2 i; tap_value = signed i }

  -- A query that asks to set or to add parameters has 24 bytes and is read back as it was written,
  -- with the uid and the type below 2^64 and the value in the range of int64_t.
  pub queries_round_trip :
      (read_set_query (write_set_query q) ≡ q)
      × (read_add_query (write_add_query q) ≡ q)
      × (length (write_set_query q) ≡ params_query_size)
      × (length (write_add_query q) ≡ params_query_size)
  unfolding write_set_query write_add_query
  queries_round_trip = (
    set_query_round_trip,
    add_query_round_trip,
    length_of_three q.uid q.tap_type (word_64 q.tap_value),
    length_of_three q.uid (word_64 q.tap_value) q.tap_type,
  )
