-- ===== src/Client/Responses.antt =====
-- The responses of the handlers: their sizes, and what their error codes say.
use cinder_userspace.Base.{
  Bool, ◌==◌, if◌then◌else◌, ℕ, ◌≡◌, refl, List, true, false, arith, length,
}
use cinder_userspace.Base.Int.{pos, ℤ, is_zero, nonzero, eq_ℤ, eperm, enoent}
use cinder_userspace.Context.{pa_no_error, pa_failure, pa_uid_not_found, pa_bad_permissions}
use cinder_userspace.Wire.{bytes, write_stat_response, write_get_response, write_error_response}
use cinder_userspace.Client.{stat_response, get_response, set_error, add_error, remove_error}

length-write_stat_response :
    (rid : ℤ) (flags error : ℕ) → length (write_stat_response rid flags error) ≡ 12
unfolding write_stat_response bytes
length-write_stat_response rid flags error = refl

length-write_get_response :
    (tap_type : ℕ) (tap_value : ℤ) (error : ℕ) (padding : ℤ)
    → length (write_get_response tap_type tap_value error padding) ≡ 24
unfolding write_get_response bytes
length-write_get_response tap_type tap_value error padding = refl

pub length-write_error_response : (error : ℕ) → length (write_error_response error) ≡ 4
unfolding write_error_response bytes
length-write_error_response error = refl

length-if :
    (b : Bool) (n : ℕ) (xs ys : List ℕ)
    → length xs ≡ n
    → length ys ≡ n
    → length (if b then xs else ys) ≡ n
length-if true n xs ys e e' = e
length-if false n xs ys e e' = e'

pub length-stat_response : (err rid : ℤ) (flags : ℕ) → length (stat_response err rid flags) ≡ 12
unfolding stat_response
length-stat_response err rid flags =
    length-if (nonzero err) 12 _ _ (length-write_stat_response (pos 0) 0 pa_failure)
      (length-write_stat_response rid flags pa_no_error)

pub length-get_response :
    (err : ℤ) (tap_type : ℕ) (tap_value padding : ℤ)
    → length (get_response err tap_type tap_value padding) ≡ 24
unfolding get_response
length-get_response err tap_type tap_value padding =
    let none_given : (error : ℕ) → length (write_get_response 0 (pos 0) error padding) ≡ 24 =
      λ error. length-write_get_response 0 (pos 0) error padding in
    length-if (eq_ℤ err enoent) 24 _ _ (none_given pa_uid_not_found) (
      length-if (eq_ℤ err eperm) 24 _ _ (none_given pa_bad_permissions) (
        length-if (nonzero err) 24 _ _ (none_given pa_failure)
          (length-write_get_response tap_type tap_value pa_no_error padding)))

-- The code in the response to a request that sets, adds or removes parameters is PA_NO_ERROR
-- exactly if the controller returned 0.
error_codes :
    (err : ℤ) (error : ℕ)
    → ((set_error err error == pa_no_error) ≡ is_zero err)
      × ((add_error err error == pa_no_error) ≡ is_zero err)
      × ((remove_error err == pa_no_error) ≡ is_zero err)
unfolding set_error add_error remove_error
error_codes err error = (ground arith, ground arith, ground arith)
