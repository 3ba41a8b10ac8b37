-- ===== src/Validation/Subdivide/Flows.antt =====
-- The taps of test2_subdivide_thread.c and the order in which they flow.
use mathlib.Core.List.{append-nil}
use cinder_userspace.Base.{
  ℕ, ◌+◌, ◌^◌, ◌<◌, ◌≡◌, refl, ◌∙◌, ap, sym, true, List, [], ◌∷◌, ◌++◌, map, Option, none, some,
  arith, ltb, ◌==◌, false, length, Bool-cases, inl, inr,
}
use cinder_userspace.Base.Int.{ℤ, pos, is_neg}
use cinder_userspace.Base.Text.{codes}
use cinder_userspace.Os.{sys_set_tap_rate, Env}
use cinder_userspace.Os.Ledger.{reserves}
use cinder_userspace.Store.{World, Returns, pure}
use cinder_userspace.Syscall.{cinder_tap_rate_constant, cinder_tap_rate_proportional}
use cinder_userspace.Validation.Ledger.{rates, links, grown, Returns-exit}
use cinder_userspace.Validation.Subdivide.{
  root_reserve_id, main_reserve_name, main_tap_name, Arguments, proportion, create_pair,
  create_share, percent_of, subdivide,
}

-- The proportional rate of a tap.
abbrev pub proportional : ℤ × ℕ → ℤ × ℤ × ℤ
proportional (tap, percent) = (tap, pos cinder_tap_rate_proportional, pos percent)

module _ {H L : Type 0} where
  -- What a pair, a share and the whole subdivision leave, where the process goes on or not.
  abbrev pub Made : (source : ℤ) (w : World H L) → Option (ℤ × ℤ) → World H L → Type 0
  Made source w none w' = rates w'.trace ≡ rates w.trace
  Made source w (some (reserve, tap)) w' =
      (rates w'.trace ≡ rates w.trace)
      × (links w'.trace ≡ links w.trace ++ (source, reserve, tap) ∷ [])
      × (reserves w'.trace ≡ reserve ∷ reserves w.trace)

  abbrev Shared : (source : ℤ) (percent : ℕ) (w : World H L) → Option ℤ → World H L → Type 0
  Shared source percent w none w' = rates w'.trace ≡ rates w.trace
  Shared source percent w (some reserve) w' =
      (tap : ℤ) × (rates w'.trace
        ≡ rates w.trace ++ (tap, pos cinder_tap_rate_proportional, pos percent) ∷ [])
      × (links w'.trace ≡ links w.trace ++ (source, reserve, tap) ∷ [])
      × (reserves w'.trace ≡ reserve ∷ reserves w.trace)

  -- Of the percentages in a list, in the order of the taps that have them.
  abbrev pub Divided : (args : Arguments) (w : World H L) → Option (ℤ × ℤ × ℤ) → World H L → Type 0
  Divided args w none w' =
      (taps : List (ℤ × ℕ)) × (rates w'.trace ≡ rates w.trace ++ map proportional taps)
  Divided args w (some (a, b, c)) w' =
      let total = args.weight_a + args.weight_b + args.weight_c in
      (reserve tap tap_a tap_b tap_c : ℤ) × (links w'.trace
        ≡ links w.trace
          ++ ((root_reserve_id, reserve, tap)
              ∷ (reserve, a, tap_a)
              ∷ (reserve, b, tap_b)
              ∷ (reserve, c, tap_c)
              ∷ []))
      × (rates w'.trace
          ≡ rates w.trace
            ++ (map proportional (
                  (tap_a, proportion args.weight_a total)
                  ∷ (tap_b, proportion args.weight_b total)
                  ∷ (tap_c, proportion args.weight_c total)
                  ∷ [])
                ++ (tap, pos cinder_tap_rate_constant, args.overall_tap_rate) ∷ []))
      × (reserves w'.trace ≡ c ∷ b ∷ a ∷ reserve ∷ reserves w.trace)

module _ {H L : Type 0} (env : Env H L) where
  pub create_pair-Made :
      (reserve_name tap_name : List ℕ) (namelen : ℕ) (source : ℤ) (w : World H L)
      → Returns (Made source w) (create_pair env reserve_name tap_name namelen source w)
  unfolding create_pair rates links reserves
  create_pair-Made reserve_name tap_name namelen source w = ground arith

  create_share-Shared :
      (reserve_name tap_name : List ℕ) (source : ℤ) (percent : ℕ) (w : World H L)
      → Returns (Shared source percent w) (create_share env reserve_name tap_name source percent w)
  unfolding create_share rates links reserves
  create_share-Shared reserve_name tap_name source percent w =
      Returns-exit (Shared source percent w) (Made source w)
        (create_pair env reserve_name tap_name (length main_tap_name + 1) source w) _
        (create_pair-Made reserve_name tap_name (length main_tap_name + 1) source w)
        (λ u same. same)
        (λ (reserve, tap) u (same, made, new). elim (Bool-cases (is_neg (set u tap))) [
          | inl e ↦ rw (e, Returns) (rw (rates, e) same)
          | inr e ↦
              rw (e, Returns)
                (
                  tap,
                  rw (rates, e) (ap (λ l. l ++ proportional (tap, percent) ∷ []) same),
                  made,
                  new,
                )
        ])
    where
      set : World H L → ℤ → ℤ
      set u tap =
          env.result u.trace (sys_set_tap_rate tap (pos cinder_tap_rate_proportional) (pos percent))

  percent_of-proportion :
      (weight total_weight : ℕ)
      → (total_weight == 0) ≡ false
      → percent_of env weight total_weight ≡ pure (proportion weight total_weight)
  unfolding percent_of
  percent_of-proportion weight total_weight some_weight = rw some_weight refl

  pub subdivide-Divided :
      (args : Arguments) (w : World H L)
      → 0 < args.weight_a + args.weight_b + args.weight_c
      → args.weight_a + args.weight_b + args.weight_c < 2 ^ 31
      → Returns (Divided args w) (subdivide env args w)
  unfolding subdivide rates links reserves
  subdivide-Divided args w some_weight fits =
      let defined : ltb total (2 ^ 31) ≡ true = ground arith in
      let no_zero : (total == 0) ≡ false = ground arith in
      Returns-exit (Divided args w) (Made root_reserve_id w) _ _
        (create_pair-Made main_reserve_name main_tap_name (length main_tap_name + 1) root_reserve_id
          w)
        (λ u same. ([], same ∙ sym (append-nil (rates w.trace))))
        (λ (reserve, tap) u (same, made, new).
          rw
            (
              defined,
              percent_of-proportion args.weight_a total no_zero,
              percent_of-proportion args.weight_b total no_zero,
              percent_of-proportion args.weight_c total no_zero,
              Returns,
            )
            (Returns-exit (Divided args w) (Shared reserve share_a u) _ _
              (create_share-Shared (codes "A_reserve") (codes "A_tap") reserve share_a u)
              (λ u1 same1. ([], same1 ∙ same ∙ sym (append-nil (rates w.trace))))
              (λ a u1 (tap_a, rate_a, link_a, more_a).
                let rates_a = rate_a ∙ ap (λ l. l ++ proportional (tap_a, share_a) ∷ []) same in
                let new_a = more_a ∙ ap (λ l. a ∷ l) new in
                let links_a = grown (links w.trace) _ _ made link_a in
                Returns-exit (Divided args w) (Shared reserve share_b u1) _ _
                  (create_share-Shared (codes "B_reserve") (codes "B_tap") reserve share_b u1)
                  (λ u2 same2. ((tap_a, share_a) ∷ [], same2 ∙ rates_a))
                  (λ b u2 (tap_b, rate_b, link_b, more_b).
                    let rates_b = grown (rates w.trace) _ _ rates_a rate_b in
                    let new_b = more_b ∙ ap (λ l. b ∷ l) new_a in
                    let links_b = grown (links w.trace) _ _ links_a link_b in
                    Returns-exit (Divided args w) (Shared reserve share_c u2) _ _
                      (create_share-Shared (codes "C_reserve") (codes "C_tap") reserve share_c u2)
                      (λ u3 same3. ((tap_a, share_a) ∷ (tap_b, share_b) ∷ [], same3 ∙ rates_b))
                      (λ c u3 (tap_c, rate_c, link_c, more_c).
                        let rates_c = grown (rates w.trace) _ _ rates_b rate_c in
                        let new_c = more_c ∙ ap (λ l. c ∷ l) new_b in
                        let links_c = grown (links w.trace) _ _ links_b link_c in
                        elim (Bool-cases (is_neg (set u3 tap))) [
                          | inl e ↦
                              rw (e, Returns)
                                (
                                  (tap_a, share_a) ∷ (tap_b, share_b) ∷ (tap_c, share_c) ∷ [],
                                  rw (rates, e) rates_c,
                                )
                          | inr e ↦
                              rw (e, Returns)
                                (
                                  reserve,
                                  tap,
                                  tap_a,
                                  tap_b,
                                  tap_c,
                                  links_c,
                                  rw (rates, e)
                                      (grown (rates w.trace) _ (flow tap ∷ []) rates_c refl),
                                  new_c,
                                )
                        ])))))
    where
      total : ℕ
      total = args.weight_a + args.weight_b + args.weight_c

      share_a : ℕ
      share_a = proportion args.weight_a total

      share_b : ℕ
      share_b = proportion args.weight_b total

      share_c : ℕ
      share_c = proportion args.weight_c total

      flow : ℤ → ℤ × ℤ × ℤ
      flow tap = (tap, pos cinder_tap_rate_constant, args.overall_tap_rate)

      set : World H L → ℤ → ℤ
      set u tap =
          env.result u.trace
            (sys_set_tap_rate tap (pos cinder_tap_rate_constant) args.overall_tap_rate)
