-- ===== src/Wire.antt =====
-- CinderUserspace/PowerArbiter/protocol.h, which CinderUserspace/PAController/protocol.h copies: the
-- structures that go over the socket, byte by byte as the 32-bit ARM ABI lays them out, in little
-- endian order with a 64-bit field at a multiple of 8.
pub mod RoundTrip
use cinder_userspace.Base.{
  ℕ, zero, suc, ◌+◌, ◌-◌, ◌*◌, ◌/◌, ◌%◌, ◌^◌, List, [], ◌∷◌, ◌++◌, ltb, if◌then◌else◌, take, drop,
}
use cinder_userspace.Base.Int.{ℤ, pos, negsuc}
use cinder_userspace.Base.Text.{word_32, word_64}

-- The `k` bytes of a number, and the number that bytes stand for.
unfoldable pub bytes : ℕ → ℕ → List ℕ
bytes zero n = []
bytes (suc k) n = n % 256 ∷ bytes k (n / 256)

unfoldable pub number : List ℕ → ℕ
number [] = 0
number (b ∷ bs) = b + 256 * number bs

-- The field of `k` bytes at an offset.
abbrev pub field : ℕ → ℕ → List ℕ → ℕ
field offset k message = number (take k (drop offset message))

abbrev pub signed_64 : ℕ → ℤ
signed_64 n = if ltb n (2 ^ 63) then pos n else negsuc (2 ^ 64 - 1 - n)

-- The conversion of a 64-bit number to uid_t.
abbrev pub to_uid : ℕ → ℕ
to_uid n = n % 2 ^ 32

-- sizeof of each structure.
abbrev pub request_size : ℕ
request_size = 4

abbrev pub uid_query_size : ℕ
uid_query_size = 8

abbrev pub params_query_size : ℕ
params_query_size = 24

abbrev pub stat_response_size : ℕ
stat_response_size = 12

abbrev pub get_response_size : ℕ
get_response_size = 24

abbrev pub error_response_size : ℕ
error_response_size = 4

-- PASetTapParamsQuery and PAAddUIDParamsQuery; these have their fields in different orders.
pub record ParamsQuery : Type 0 where
  pub uid : ℕ
  pub tap_type : ℕ
  pub tap_value : ℤ

unfoldable pub read_set_query : List ℕ → ParamsQuery
read_set_query m = record {
  uid = field 0 8 m;
  tap_type = field 8 8 m;
  tap_value = signed_64 (field 16 8 m);
}

unfoldable pub read_add_query : List ℕ → ParamsQuery
read_add_query m = record {
  uid = field 0 8 m;
  tap_value = signed_64 (field 8 8 m);
  tap_type = field 16 8 m;
}

unfoldable pub write_set_query : ParamsQuery → List ℕ
write_set_query q = bytes 8 q.uid ++ (bytes 8 q.tap_type ++ bytes 8 (word_64 q.tap_value))

unfoldable pub write_add_query : ParamsQuery → List ℕ
write_add_query q = bytes 8 q.uid ++ (bytes 8 (word_64 q.tap_value) ++ bytes 8 q.tap_type)

-- PAStatReserveResponse
unfoldable pub write_stat_response : (rid : ℤ) (flags error : ℕ) → List ℕ
write_stat_response rid flags error = bytes 4 (word_32 rid) ++ (bytes 4 flags ++ bytes 4 error)

-- PAGetTapParamsResponse; the last four bytes are padding.
unfoldable pub write_get_response :
    (tap_type : ℕ) (tap_value : ℤ) (error : ℕ) (padding : ℤ) → List ℕ
write_get_response tap_type tap_value error padding =
    bytes 8 tap_type
    ++ (bytes 8 (word_64 tap_value) ++ (bytes 4 error ++ bytes 4 (word_32 padding)))

-- PASetTapParamsResponse, PAAddUIDParamsResponse and PARemoveUIDParamsResponse
unfoldable pub write_error_response : (error : ℕ) → List ℕ
write_error_response error = bytes 4 error
