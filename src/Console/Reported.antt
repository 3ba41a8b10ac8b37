-- ===== src/Console/Reported.antt =====
-- The response of getTapParams, from the daemon's handler to the text that the controller program
-- prints.
use cinder_userspace.Base.{
  ap, ◌∙◌, ℕ, ◌<◌, ◌^◌, ◌≡◌, refl, false, List, [], ◌∷◌, arith, ◌==◌, take, Bool-cases, inl, inr,
  if◌then◌else◌,
}
use cinder_userspace.Base.Int.{ℤ, pos, is_zero, eq_ℤ, eperm, enoent}
use cinder_userspace.Base.Text.{word_64}
use cinder_userspace.Os.{print, Env}
use cinder_userspace.Store.{World, ok, logged}
use cinder_userspace.Context.{pa_no_error, pa_failure, pa_uid_not_found, pa_bad_permissions}
use cinder_userspace.Wire.{field, number, signed_64, write_get_response}
use cinder_userspace.Wire.RoundTrip.{
  Fits64, take-bytes, drop-bytes, number-bytes, signed-word_64, word_64-lt,
}
use cinder_userspace.Client.{get_response}
use cinder_userspace.Console.Requests.{response_text, mapping_text, report_mapping}

-- The texts are printed, one after another.
abbrev pub printed : {H L : Type 0} → Env H L → List (List ℕ) → World H L → World H L
printed env [] w = w
printed env (text ∷ texts) w =
    printed env texts (logged w (print text) (env.result w.trace (print text)))

-- What the program is told of an error of getTapParams.
abbrev pub refusal : ℤ → ℕ
refusal err =
    if eq_ℤ err enoent
    then pa_uid_not_found
    else if eq_ℤ err eperm
    then pa_bad_permissions
    else pa_failure

module _ {H L : Type 0} (env : Env H L) (uid : ℕ) (padding : ℤ) (w : World H L) where
  -- The three fields of the response.
  fields :
      (k error : ℕ) (v : ℤ)
      → k < 2 ^ 64
      → error < 2 ^ 32
      → Fits64 v
      → let m = write_get_response k v error padding in
        (field 0 8 m ≡ k) × (signed_64 (field 8 8 m) ≡ v) × (field 16 4 m ≡ error)
  unfolding write_get_response
  fields k error v hk he hv = (
    ap number (take-bytes 8 k _) ∙ number-bytes 8 k hk,
    ap signed_64 (
          ap (λ m. number (take 8 m)) (drop-bytes 8 0 k _)
          ∙ (ap number (take-bytes 8 (word_64 v) _) ∙ number-bytes 8 (word_64 v) (word_64-lt v)))
        ∙ signed-word_64 v hv,
    ap (λ m. number (take 4 m)) (drop-bytes 8 8 k _ ∙ drop-bytes 8 0 (word_64 v) _)
        ∙ (ap number (take-bytes 4 error _) ∙ number-bytes 4 error he),
  )

  given :
      (k : ℕ) (v : ℤ)
      → k < 2 ^ 64
      → Fits64 v
      → report_mapping env uid (write_get_response k v pa_no_error padding) w
        ≡ ok (pos 0) (printed env (response_text pa_no_error ∷ mapping_text uid k v ∷ []) w)
  unfolding report_mapping
  given k v hk hv = let f = fields k pa_no_error v hk (omega arith) hv in rw (f.0, f.1, f.2) refl

  refused :
      (error : ℕ)
      → error < 2 ^ 32
      → (error == pa_no_error) ≡ false
      → report_mapping env uid (write_get_response 0 (pos 0) error padding) w
        ≡ ok (pos 0) (printed env (response_text error ∷ []) w)
  unfolding report_mapping
  refused error he bad =
      let f = fields 0 error (pos 0) (omega arith) he (omega arith) in rw (f.2, bad) refl

  -- The daemon's response to a request for the parameters, written for any error, a type below 2^64
  -- and a value in the range of int64_t, makes the controller program return 0 and print exactly:
  -- where the error is 0, the success and the mapping with that type and value; otherwise one text,
  -- for an unknown uid, for a lack of permission, or for any other failure.
  pub report_mapping-get_response :
      (err : ℤ) (tap_type : ℕ) (tap_value : ℤ)
      → tap_type < 2 ^ 64
      → Fits64 tap_value
      → report_mapping env uid (get_response err tap_type tap_value padding) w
        ≡ ok (pos 0) (
            printed env
              (if is_zero err
                then response_text pa_no_error ∷ mapping_text uid tap_type tap_value ∷ []
                else response_text (refusal err) ∷ [])
              w)
  unfolding get_response
  report_mapping-get_response err k v hk hv = elim (Bool-cases (eq_ℤ err enoent)) [
    | inl e ↦
        let z : is_zero err ≡ false = ground (arith, e) in
        rw (e, z) (refused pa_uid_not_found (omega arith) refl)
    | inr e ↦ elim (Bool-cases (eq_ℤ err eperm)) [
      | inl f ↦
          let z : is_zero err ≡ false = ground (arith, f) in
          rw (e, f, z) (refused pa_bad_permissions (omega arith) refl)
      | inr f ↦ elim (Bool-cases (is_zero err)) [
        | inl z ↦ rw (e, f, z) (given k v hk hv)
        | inr z ↦ rw (e, f, z) (refused pa_failure (omega arith) refl)
      ]
    ]
  ]
