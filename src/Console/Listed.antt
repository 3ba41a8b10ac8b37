-- ===== src/Console/Listed.antt =====
-- The lists of reserves and of taps of CinderUserspace/PAController/util.c.
use mathlib.Core.List.{append_assoc, append-nil}
use cinder_userspace.Base.{
  ℕ, zero, suc, ◌+◌, ◌≡◌, refl, ◌∙◌, sym, List, [], ◌∷◌, ◌++◌, arith, if◌then◌else◌,
}
use cinder_userspace.Base.Int.{ℤ, pos, negsuc, pos_part, is_neg}
use cinder_userspace.Os.{Env, syscall}
use cinder_userspace.Os.Ledger.{asked}
use cinder_userspace.Store.{Cmd, pure, ◌>>◌, World, Returns, Returns-bind, Returns-mono, logged}
use cinder_userspace.Console.Reserves.{
  sys_num_reserves, sys_get_reserve, sys_num_taps, sys_get_tap, list_reserves_from,
  handle_list_reserves, list_taps_from, handle_list_taps,
}

-- 0, 1, … below n.
abbrev pub below : ℕ → List ℕ
below zero = []
below (suc n) = below n ++ n ∷ []

abbrev pub each_index : List ℕ → List (List ℤ)
each_index [] = []
each_index (i ∷ is) = (pos i ∷ []) ∷ each_index is

from : (left index : ℕ) → List ℕ
from zero index = []
from (suc left) index = index ∷ from left (index + 1)

from_snoc : (left index : ℕ) → from (suc left) index ≡ from left index ++ (index + left) ∷ []
unfolding from
from_snoc zero index = let e : index + 0 ≡ index = omega arith in rw e
from_snoc (suc left) index =
    let e : index + 1 + left ≡ index + suc left = omega arith in rw (from_snoc left (index + 1), e)

from-below : (n : ℕ) → from n 0 ≡ below n
unfolding from
from-below zero = refl
from-below (suc n) = let e : 0 + n ≡ n = omega arith in from_snoc n 0 ∙ rw (e, from-below n)

one_more :
    (before after : List (List ℤ)) (left index : ℕ)
    → after ≡ (before ++ (pos index ∷ []) ∷ []) ++ each_index (from left (index + 1))
    → after ≡ before ++ each_index (from (suc left) index)
unfolding from
one_more before after left index e =
    e ∙ append_assoc before ((pos index ∷ []) ∷ []) (each_index (from left (index + 1)))

module _ {H L : Type 0} (env : Env H L) where
  -- A listing calls `get_call` at each of the indices, in order.
  Asked : (get_call : ℕ) (indices : List ℕ) (w w' : World H L) → Type 0
  Asked get_call indices w w' =
      asked get_call w'.trace ≡ asked get_call w.trace ++ each_index indices

  list_reserves_from-Asked :
      (left index : ℕ) (w : World H L)
      → Returns
          (λ a w'. Asked sys_get_reserve (from left index) w w')
          (list_reserves_from env left index w)
  unfolding list_reserves_from Asked asked from
  list_reserves_from-Asked zero index w = sym (append-nil (asked sys_get_reserve w.trace))
  list_reserves_from-Asked (suc left) index w =
      Returns-mono _ (λ a w'. Asked sys_get_reserve (from (suc left) index) w w') _
        (list_reserves_from-Asked left (index + 1) _)
        (λ a w' e.
          one_more (asked sys_get_reserve w.trace) (asked sys_get_reserve w'.trace) left index e)

  list_taps_from-Asked :
      (left index : ℕ) (w : World H L)
      → Returns (λ a w'. Asked sys_get_tap (from left index) w w') (list_taps_from env left index w)
  unfolding list_taps_from Asked asked from
  list_taps_from-Asked zero index w = sym (append-nil (asked sys_get_tap w.trace))
  list_taps_from-Asked (suc left) index w =
      Returns-mono _ (λ a w'. Asked sys_get_tap (from (suc left) index) w w') _
        (list_taps_from-Asked left (index + 1) _)
        (λ a w' e. one_more (asked sys_get_tap w.trace) (asked sys_get_tap w'.trace) left index e)

  -- What a listing does, where the kernel counts `num`.
  pub record Listed (num : ℤ) (get_call : ℕ) (input : List ℕ) (w : World H L) (a : ℤ × List ℕ)
      (w' : World H L) : Type 0 where
    pub result : a.0 ≡ (if is_neg num then num else pos 0)
    pub rest : a.1 ≡ input
    pub asked :
        asked get_call w'.trace ≡ asked get_call w.trace ++ each_index (below (pos_part num))

  listing-Listed :
      (num : ℤ) (get_call : ℕ) (input : List ℕ) (w counted : World H L) (loop : Cmd H L (Unit {0}))
      → asked get_call counted.trace ≡ asked get_call w.trace
      → Returns (λ a w'. Asked get_call (below (pos_part num)) counted w') (loop counted)
      → Returns
          (Listed num get_call input w)
          ((if is_neg num then pure (num, input) else (loop >> pure (pos 0, input))) counted)
  unfolding Asked
  listing-Listed (pos n) get_call input w counted loop same done =
      Returns-bind (Listed (pos n) get_call input w) (λ a w'. Asked get_call (below n) counted w')
        (loop counted) _ done
        (λ a w' e. record { result = refl; rest = refl; asked = rw same at e })
  listing-Listed (negsuc n) get_call input w counted loop same done = record {
    result = refl;
    rest = refl;
    asked = same ∙ sym (append-nil (asked get_call w.trace));
  }

  -- Where the kernel counts n reserves, or n taps, listing them asks for each of the indices from 0
  -- to n - 1, once and in order, and returns 0; where the count is negative it is returned, and
  -- nothing is asked for. The input stays as it is.
  pub lists-Listed :
      (input : List ℕ) (w : World H L)
      → Returns
          (Listed (env.result w.trace (syscall sys_num_reserves [])) sys_get_reserve input w)
          (handle_list_reserves env input w)
        × Returns
            (Listed (env.result w.trace (syscall sys_num_taps [])) sys_get_tap input w)
            (handle_list_taps env input w)
  unfolding handle_list_reserves handle_list_taps asked Asked
  lists-Listed input w = (
    listing-Listed reserves sys_get_reserve input w
        (logged w (syscall sys_num_reserves []) reserves)
        (list_reserves_from env (pos_part reserves) 0) refl
        (rw (← from-below (pos_part reserves)) (list_reserves_from-Asked (pos_part reserves) 0 _)),
    listing-Listed taps sys_get_tap input w (logged w (syscall sys_num_taps []) taps)
        (list_taps_from env (pos_part taps) 0) refl
        (rw (← from-below (pos_part taps)) (list_taps_from-Asked (pos_part taps) 0 _)),
  )
    where
      reserves : ℤ
      reserves = env.result w.trace (syscall sys_num_reserves [])

      taps : ℤ
      taps = env.result w.trace (syscall sys_num_taps [])
