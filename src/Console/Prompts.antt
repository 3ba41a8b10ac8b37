-- ===== src/Console/Prompts.antt =====
-- The prompts of CinderUserspace/PAController/client.c and util.c: what the handlers make of the
-- lines that they read. `int` and `long` have 32 bits.
pub mod Rest
use cinder_userspace.Base.{ℕ, ◌+◌, ◌||◌, List, if◌then◌else◌, length}
use cinder_userspace.Base.Int.{ℤ, is_neg}
use cinder_userspace.Base.Text.{codes, word_32}
use cinder_userspace.Syscall.{
  cinder_max_namelen, cinder_tap_rate_constant, cinder_tap_rate_proportional,
}
use cinder_userspace.Stdin.{Prompt, fgets, answer, refuse, ◌>>=◌, chomp, same_text, atol}
use cinder_userspace.Wire.{ParamsQuery}

-- char amount_str[22] and input[22]; char id[12].
abbrev pub amount_size : ℕ
amount_size = 22

abbrev pub id_size : ℕ
id_size = 12

-- CINDER_CAP_RESERVE_DRAW and CINDER_CAP_RESERVE_MODIFY
abbrev pub cap_reserve_draw : ℕ
cap_reserve_draw = 1

abbrev pub cap_reserve_modify : ℕ
cap_reserve_modify = 2

-- The conversion of a `long` to uid_t is that to 32 bits.
unfoldable pub ask_uid : Prompt ℕ
unfolding fgets atol
ask_uid = do amount_str ← fgets amount_size; answer (word_32 (atol amount_str))

unfoldable pub ask_tap_value : Prompt ℤ
unfolding fgets atol
ask_tap_value = do
  amount_str ← fgets amount_size
  if is_neg (atol amount_str) then refuse else answer (atol amount_str)

-- The type that the letter stands for.
unfoldable pub tap_type_of : List ℕ → Prompt ℕ
tap_type_of input =
    if same_text (codes "c") input || same_text (codes "C") input
    then answer cinder_tap_rate_constant
    else if same_text (codes "p") input || same_text (codes "P") input
    then answer cinder_tap_rate_proportional
    else refuse

unfoldable pub ask_tap_type : Prompt ℕ
unfolding fgets chomp tap_type_of
ask_tap_type = do line ← fgets amount_size; tap_type_of (chomp line)

-- The prompts for a new mapping, and those for a mapping to change.
unfoldable pub ask_params : Prompt ParamsQuery
unfolding ask_uid ask_tap_value ask_tap_type
ask_params = do
  uid ← ask_uid
  tap_value ← ask_tap_value
  tap_type ← ask_tap_type
  answer (record { uid = uid; tap_value = tap_value; tap_type = tap_type })

-- A name and its length with the 0 byte.
unfoldable pub ask_name : Prompt (List ℕ × ℕ)
unfolding fgets chomp
ask_name = do line ← fgets cinder_max_namelen; answer (chomp line, length (chomp line) + 1)

unfoldable pub ask_id : Prompt ℤ
unfolding fgets atol
ask_id = do id ← fgets id_size; answer (atol id)

unfoldable pub ask_amount : Prompt ℤ
unfolding fgets atol
ask_amount = do amount_str ← fgets amount_size; answer (atol amount_str)

-- A capability that is granted by "y".
unfoldable pub ask_capability : (capability : ℕ) → Prompt ℕ
unfolding fgets chomp
ask_capability capability = do
  id ← fgets id_size
  answer (if same_text (chomp id) (codes "y") then capability else 0)

unfoldable pub ask_new_tap : Prompt ((List ℕ × ℕ) × ℤ × ℤ)
unfolding ask_name ask_id
ask_new_tap = do name ← ask_name; src ← ask_id; dest ← ask_id; answer (name, src, dest)

unfoldable pub ask_transfer : Prompt (ℤ × ℤ × ℤ × ℤ)
unfolding ask_id ask_amount
ask_transfer = do
  src ← ask_id
  dest ← ask_id
  amount ← ask_amount
  fail_if_insufficient ← ask_amount
  answer (src, dest, amount, fail_if_insufficient)

unfoldable pub ask_tap_rate : Prompt (ℤ × ℤ × ℤ)
unfolding ask_id ask_amount
ask_tap_rate = do
  tap_id ← ask_id
  rate_type ← ask_amount
  value ← ask_amount
  answer (tap_id, rate_type, value)

-- The reserve, the process and the capabilities, which are different bits.
unfoldable pub ask_exposure : Prompt (ℤ × ℤ × ℕ)
unfolding ask_id ask_capability
ask_exposure = do
  reserve_id ← ask_id
  pid ← ask_id
  draw ← ask_capability cap_reserve_draw
  modify ← ask_capability cap_reserve_modify
  answer (reserve_id, pid, draw + modify)
