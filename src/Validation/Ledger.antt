-- ===== src/Validation/Ledger.antt =====
-- What the traces of the programs of CinderUserspace/cinder_validation say of the taps, and the rule
-- for their steps.
use mathlib.Core.List.{append_assoc}
use cinder_userspace.Base.{◌≡◌, ◌∙◌, ap, List, [], ◌∷◌, ◌++◌, Option, none, some, if◌then◌else◌}
use cinder_userspace.Base.Int.{ℤ, is_neg}
use cinder_userspace.Os.{Call, Trace, sys_set_tap_rate, sys_create_tap, fork}
use cinder_userspace.Store.{World, Run, Cmd, ok, fault, out_of_fuel, Returns, pure}

abbrev pub rates_after : Call → ℤ → List (ℤ × ℤ × ℤ) → List (ℤ × ℤ × ℤ)
rates_after (sys_set_tap_rate tap kind value) r before =
    if is_neg r then before else before ++ (tap, kind, value) ∷ []
rates_after _ r before = before

-- The taps whose rate was set, with the type and the value, in order.
unfoldable pub rates : Trace → List (ℤ × ℤ × ℤ)
rates [] = []
rates (e ∷ t) = rates_after e.call e.ret (rates t)

abbrev pub links_after : Call → ℤ → List (ℤ × ℤ × ℤ) → List (ℤ × ℤ × ℤ)
links_after (sys_create_tap name len source dest) r before =
    if is_neg r then before else before ++ (source, dest, r) ∷ []
links_after _ r before = before

-- The taps that were made, each behind its source and its destination, in order.
unfoldable pub links : Trace → List (ℤ × ℤ × ℤ)
links [] = []
links (e ∷ t) = links_after e.call e.ret (links t)

abbrev pub forks_after : Call → ℤ → List ℤ → List ℤ
forks_after fork r before = before ++ r ∷ []
forks_after _ r before = before

-- What each `fork` returned, in order.
unfoldable pub forks : Trace → List ℤ
forks [] = []
forks (e ∷ t) = forks_after e.call e.ret (forks t)

pub grown :
    (l : List (ℤ × ℤ × ℤ)) {m n : List (ℤ × ℤ × ℤ)} (xs ys : List (ℤ × ℤ × ℤ))
    → m ≡ l ++ xs
    → n ≡ m ++ ys
    → n ≡ l ++ (xs ++ ys)
grown l xs ys p q = q ∙ ap (λ k. k ++ ys) p ∙ append_assoc l xs ys

-- The rule for a step at which the process may end.
pub Returns-exit :
    {H L A B : Type 0} (P : Option B → World H L → Type 0) (Q : Option A → World H L → Type 0)
    (m : Run H L (Option A)) (f : A → Cmd H L (Option B))
    → Returns Q m
    → ((w : World H L) → Q none w → P none w)
    → ((a : A) (w : World H L) → Q (some a) w → Returns P (f a w))
    → Returns P (elim m [
      | ok o w ↦ elim o as (λ o. Cmd H L (Option B)) [ none ↦ pure none | some a ↦ f a ] w
      | fault ↦ fault
      | out_of_fuel ↦ out_of_fuel
    ])
Returns-exit P Q (ok none w) f q stop next = stop w q
Returns-exit P Q (ok (some a) w) f q stop next = next a w q
Returns-exit P Q fault f q stop next = absurd q
Returns-exit P Q out_of_fuel f q stop next = absurd q

-- A command whose first step is known.
pub bind_step :
    {H L A B : Type 0} (f : A → Cmd H L B) {m : Run H L A} {a : A} {u : World H L} {r : Run H L B}
    → m ≡ ok a u
    → f a u ≡ r
    → (elim m [ ok b v ↦ f b v | fault ↦ fault | out_of_fuel ↦ out_of_fuel ]) ≡ r
bind_step f e step = rw e step
