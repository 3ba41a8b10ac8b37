-- ===== src/Console/Granted.antt =====
-- The response of statReserve, from the daemon's handler to the text that the controller program
-- prints, beside that of getTapParams.
use cinder_userspace.Base.{
  ap, ◌∙◌, ℕ, ◌<◌, ◌^◌, ◌≡◌, refl, true, false, Bool, Bool-cases, inl, inr, List, [], ◌∷◌, ◌++◌,
  arith, take, if◌then◌else◌,
}
use mathlib.Core.List.{append-nil}
use cinder_userspace.Base.Int.{ℤ, pos, negsuc, is_zero}
use cinder_userspace.Base.Text.{codes, format_d, word_32}
use cinder_userspace.Os.{Env}
use cinder_userspace.Store.{World, ok}
use cinder_userspace.Context.{pa_no_error, pa_failure, pa_reserve_granted, pa_use_root_reserve}
use cinder_userspace.Wire.{bytes, field, number, write_stat_response}
use cinder_userspace.Wire.RoundTrip.{Fits64, take-bytes, drop-bytes, number-bytes}
use cinder_userspace.Client.{get_response, stat_response}
use cinder_userspace.Console.Requests.{response_text, mapping_text, report_mapping, report_reserve}
use cinder_userspace.Console.Reported.{printed, refusal, report_mapping-get_response}

-- The flags that statReserve stores with a reserve of the uid, and with that of the root.
abbrev pub grant_flags : (granted : Bool) → ℕ
grant_flags granted = if granted then pa_reserve_granted else pa_use_root_reserve

-- What is printed of a reserve behind the report of the success.
abbrev pub grant_texts : (uid : ℕ) (granted : Bool) (rid : ℤ) → List (List ℕ)
grant_texts uid granted rid =
    (codes "For UID " ++ (format_d uid ++ codes ": "))
    ∷ (if granted
        then codes "Granted access to reserve with ID " ++ (format_d (word_32 rid) ++ codes "\n")
        else codes "Use Root Reserve.\n")
    ∷ []

word_32-lt : (v : ℤ) → word_32 v < 2 ^ 32
word_32-lt (pos n) = omega arith
word_32-lt (negsuc n) = omega arith

-- The three fields of the response.
stat_fields :
    (rid : ℤ) (flags error : ℕ)
    → flags < 2 ^ 32
    → error < 2 ^ 32
    → let m = write_stat_response rid flags error in
      (field 0 4 m ≡ word_32 rid) × (field 4 4 m ≡ flags) × (field 8 4 m ≡ error)
unfolding write_stat_response
stat_fields rid flags error hf he = (
  ap number (take-bytes 4 (word_32 rid) _) ∙ number-bytes 4 (word_32 rid) (word_32-lt rid),
  ap (λ m. number (take 4 m)) (drop-bytes 4 0 (word_32 rid) _)
      ∙ (ap number (take-bytes 4 flags _) ∙ number-bytes 4 flags hf),
  ap (λ m. number (take 4 m)) (drop-bytes 4 4 (word_32 rid) _ ∙ drop-bytes 4 0 flags _)
      ∙ (ap number last ∙ number-bytes 4 error he),
)
  where
    last : take 4 (bytes 4 error) ≡ bytes 4 error
    last = rw (append-nil (bytes 4 error)) at (take-bytes 4 error [])

module _ {H L : Type 0} (env : Env H L) (uid : ℕ) (w : World H L) where
  stated :
      (rid : ℤ) (granted : Bool)
      → report_reserve env uid (write_stat_response rid (grant_flags granted) pa_no_error) w
        ≡ ok (pos 0) (printed env (response_text pa_no_error ∷ grant_texts uid granted rid) w)
  unfolding report_reserve
  stated rid true =
      let f = stat_fields rid pa_reserve_granted pa_no_error (omega arith) (omega arith) in
      rw (f.0, f.1, f.2) refl
  stated rid false =
      let f = stat_fields rid pa_use_root_reserve pa_no_error (omega arith) (omega arith) in
      rw (f.1, f.2) refl

  failed :
      report_reserve env uid (write_stat_response (pos 0) 0 pa_failure) w
      ≡ ok (pos 0) (printed env (response_text pa_failure ∷ []) w)
  unfolding report_reserve
  failed = let f = stat_fields (pos 0) 0 pa_failure (omega arith) (omega arith) in rw f.2 refl

  report_reserve-stat_response :
      (err rid : ℤ) (granted : Bool)
      → report_reserve env uid (stat_response err rid (grant_flags granted)) w
        ≡ ok (pos 0) (
            printed env
              (if is_zero err
                then response_text pa_no_error ∷ grant_texts uid granted rid
                else response_text pa_failure ∷ [])
              w)
  unfolding stat_response
  report_reserve-stat_response err rid granted = elim (Bool-cases (is_zero err)) [
    | inl z ↦ rw z (stated rid granted)
    | inr z ↦ rw z failed
  ]

  -- The daemon's responses to the requests for the parameters and for the reserve of a uid, as the
  -- controller program reads them: it returns 0 and prints exactly the following. For the
  -- parameters, written for any error, a type below 2^64 and a value in the range of int64_t: where
  -- the error is 0, the success and the mapping with that type and value; otherwise one text, for
  -- an unknown uid, for a lack of permission, or for any other failure. For the reserve, written
  -- for any error, any id, and the flags of a granted reserve or of the root: where the error is 0,
  -- the success, the uid and either the granted id as an int or the root reserve; otherwise the
  -- failure.
  pub responses_reported :
      (err : ℤ) (tap_type : ℕ) (tap_value : ℤ) (padding : ℤ) (rid : ℤ) (granted : Bool)
      → tap_type < 2 ^ 64
      → Fits64 tap_value
      → (report_mapping env uid (get_response err tap_type tap_value padding) w
          ≡ ok (pos 0) (
              printed env
                (if is_zero err
                  then response_text pa_no_error ∷ mapping_text uid tap_type tap_value ∷ []
                  else response_text (refusal err) ∷ [])
                w))
        × (report_reserve env uid (stat_response err rid (grant_flags granted)) w
            ≡ ok (pos 0) (
                printed env
                  (if is_zero err
                    then response_text pa_no_error ∷ grant_texts uid granted rid
                    else response_text pa_failure ∷ [])
                  w))
  responses_reported err tap_type tap_value padding rid granted fits_type fits_value = (
    report_mapping-get_response env uid padding w err tap_type tap_value fits_type fits_value,
    report_reserve-stat_response err rid granted,
  )
