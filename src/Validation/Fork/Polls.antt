-- ===== src/Validation/Fork/Polls.antt =====
-- How often the child of test1_fork.c asks for the level of its reserve.
use cinder_userspace.Base.{
  ℕ, zero, suc, ◌+◌, ◌-◌, ◌/◌, ◌%◌, ◌≡◌, refl, ◌∙◌, ap, sym, false, List, [], ◌∷◌, ◌++◌, arith,
  ◌==◌, Bool-cases, inl, inr,
}
use cinder_userspace.Base.Int.{ℤ}
use cinder_userspace.Os.{syscall, Env, getpid}
use cinder_userspace.Os.Ledger.{asked, reserves}
use cinder_userspace.Store.{World, Returns, Returns-mono, Returns-bind, logged}
use cinder_userspace.Console.Reserves.{sys_reserve_level}
use cinder_userspace.Validation.Fork.{count_up, test_method}
use cinder_userspace.Validation.Ledger.{rates, links, forks}

-- `n` more requests for the level, in front of which there was `before`.
abbrev pub polled : (reserve_id : ℤ) (n : ℕ) → List (List ℤ) → List (List ℤ)
polled reserve_id zero before = before
polled reserve_id (suc n) before = polled reserve_id n (before ++ (reserve_id ∷ []) ∷ [])

-- How many of the `left` numbers from `counter` on are multiples of 100.
abbrev pub hundreds : (left counter : ℕ) → ℕ
hundreds left counter = (counter + left + 99) / 100 - (counter + 99) / 100

module _ {H L : Type 0} where
  -- The requests for the level are those before and `n` more; the taps are as they were.
  pub record Polled (reserve_id : ℤ) (n : ℕ) (w w' : World H L) : Type 0 where
    pub levels :
        asked sys_reserve_level w'.trace ≡ polled reserve_id n (asked sys_reserve_level w.trace)
    pub others_kept :
        (k : ℕ) → (sys_reserve_level == k) ≡ false → asked k w'.trace ≡ asked k w.trace
    pub rates_kept : rates w'.trace ≡ rates w.trace
    pub links_kept : links w'.trace ≡ links w.trace
    pub forks_kept : forks w'.trace ≡ forks w.trace
    pub reserves_kept : reserves w'.trace ≡ reserves w.trace

module _ {H L : Type 0} (env : Env H L) where
  count_up-Polled :
      (reserve_id : ℤ) (left counter : ℕ) (w : World H L)
      → Returns
          (λ a. Polled reserve_id (hundreds left counter) w)
          (count_up env reserve_id left counter w)
  unfolding count_up asked rates links forks reserves
  count_up-Polled reserve_id zero counter w =
      let none_left : hundreds 0 counter ≡ 0 = omega arith in
      record {
        levels =
            ap (λ (k : ℕ). polled reserve_id k (asked sys_reserve_level w.trace)) (sym none_left);
        others_kept = λ k e. refl;
        rates_kept = refl;
        links_kept = refl;
        forks_kept = refl;
        reserves_kept = refl;
      }
  count_up-Polled reserve_id (suc left) counter w = elim (Bool-cases (counter % 100 == 0)) [
    | inl e ↦
        let one : hundreds (suc left) counter ≡ suc (hundreds left (counter + 1)) =
          ground (arith, e) in
        rw (e, Returns)
          (Returns-mono (λ a. Polled reserve_id (hundreds left (counter + 1)) (polled_once w))
            (λ a. Polled reserve_id (hundreds (suc left) counter) w)
            (count_up env reserve_id left (counter + 1) (polled_once w))
            (count_up-Polled reserve_id left (counter + 1) (polled_once w))
            (λ a w' d. record {
              levels = d.levels ∙ count one;
              others_kept = λ k z. d.others_kept k z ∙ rw (asked, z) refl;
              rates_kept = d.rates_kept;
              links_kept = d.links_kept;
              forks_kept = d.forks_kept;
              reserves_kept = d.reserves_kept;
            }))
    | inr e ↦
        let same : hundreds (suc left) counter ≡ hundreds left (counter + 1) = ground (arith, e) in
        rw (e, Returns)
          (Returns-mono (λ a. Polled reserve_id (hundreds left (counter + 1)) w)
            (λ a. Polled reserve_id (hundreds (suc left) counter) w)
            (count_up env reserve_id left (counter + 1) w)
            (count_up-Polled reserve_id left (counter + 1) w)
            (λ a w' d. record {
              levels = d.levels ∙ count same;
              others_kept = d.others_kept;
              rates_kept = d.rates_kept;
              links_kept = d.links_kept;
              forks_kept = d.forks_kept;
              reserves_kept = d.reserves_kept;
            }))
  ]
    where
      polled_once : World H L → World H L
      polled_once u =
          logged u (syscall sys_reserve_level (reserve_id ∷ []))
            (env.result u.trace (syscall sys_reserve_level (reserve_id ∷ [])))

      count :
          {m n : ℕ}
          → m ≡ n
          → polled reserve_id n (asked sys_reserve_level w.trace)
            ≡ polled reserve_id m (asked sys_reserve_level w.trace)
      count e = ap (λ (k : ℕ). polled reserve_id k (asked sys_reserve_level w.trace)) (sym e)

  -- The child asks once for every 100 numbers, the first of them included.
  pub test_method-Polled :
      (maxval : ℕ) (reserve_id : ℤ) (w : World H L)
      → Returns
          (λ a. Polled reserve_id ((maxval + 99) / 100) w)
          (test_method env maxval reserve_id w)
  unfolding test_method asked rates links forks reserves
  test_method-Polled maxval reserve_id w =
      let all : hundreds maxval 0 ≡ (maxval + 99) / 100 = omega arith in
      Returns-bind (λ a. Polled reserve_id ((maxval + 99) / 100) w)
        (λ a. Polled reserve_id (hundreds maxval 0) started)
        (count_up env reserve_id maxval 0 started) _ (count_up-Polled reserve_id maxval 0 started)
        (λ a w' d. record {
          levels =
              d.levels ∙ ap (λ (k : ℕ). polled reserve_id k (asked sys_reserve_level w.trace)) all;
          others_kept = d.others_kept;
          rates_kept = d.rates_kept;
          links_kept = d.links_kept;
          forks_kept = d.forks_kept;
          reserves_kept = d.reserves_kept;
        })
    where
      started : World H L
      started = logged w getpid (env.result w.trace getpid)
