-- ===== src/Store.antt =====
-- The state that the daemon's threads share, and commands over it. A failed `assert` and an access
-- through NULL or through an address with no record end the process: the outcome `fault`. A loop
-- that used up its fuel has the outcome `out_of_fuel`.
use cinder_userspace.Base.{
  ◌≡◌, refl, ℕ, Bool, true, false, ◌∷◌, Option, none, some, ◌==◌, if◌then◌else◌,
}
use cinder_userspace.Base.Int.{ℤ}
use cinder_userspace.Os.{Ptr, Call, Trace, Env}

-- UIDReserveData; `reserve_created` holds 0 or 1.
pub record UidReserveData : Type 0 where
  pub reserve_created : Bool
  pub reserve_id : ℤ
  pub tap_id : ℤ
  pub tap_type : ℕ
  pub tap_value : ℤ

-- UIDReserveRecord. Its links belong to the table and to the list, its lock to the trace.
pub record UidReserveRecord : Type 0 where
  pub reserve_data : UidReserveData
  pub uid : ℕ

abbrev pub Heap : Type 0
Heap = Ptr → Option UidReserveRecord

-- ReserveDataDatabase (`active` is its field `data`), the records, and the calls made.
pub record World (H L : Type 0) : Type 0 where
  pub active : H
  pub dead_list : L
  pub heap : Heap
  pub trace : Trace

pub data Run (H L A : Type 0) : Type 0 where
  ok : A → World H L → Run H L A
  fault : Run H L A
  out_of_fuel : Run H L A

abbrev pub Cmd : (H L A : Type 0) → Type 0
Cmd H L A = World H L → Run H L A

-- The run ends with no fault, and its result and final state satisfy `P`.
abbrev pub Returns : {H L A : Type 0} → (A → World H L → Type 0) → Run H L A → Type 0
Returns P (ok a w) = P a w
Returns P fault = ⊥
Returns P out_of_fuel = ⊥

-- The rule for a bind: `Q` holds behind the first command.
pub Returns-bind :
    {H L A B : Type 0} (P : B → World H L → Type 0) (Q : A → World H L → Type 0) (m : Run H L A)
    (f : A → Cmd H L B)
    → Returns Q m
    → ((a : A) (w : World H L) → Q a w → Returns P (f a w))
    → Returns P (elim m [ ok a w ↦ f a w | fault ↦ fault | out_of_fuel ↦ out_of_fuel ])
Returns-bind P Q (ok a w) f q next = next a w q
Returns-bind P Q fault f q next = absurd q
Returns-bind P Q out_of_fuel f q next = absurd q

-- The rule for a test.
pub if-Returns :
    {H L A : Type 0} (P : A → World H L → Type 0) (b : Bool) (m other : Cmd H L A) (w : World H L)
    → (b ≡ true → Returns P (m w))
    → (b ≡ false → Returns P (other w))
    → Returns P ((if b then m else other) w)
if-Returns P true m other w first second = first refl
if-Returns P false m other w first second = second refl

module _ {H L A : Type 0} where
  pub Returns-all :
      {I : Type 0} (i : I) (P : I → A → World H L → Type 0) (m : Run H L A)
      → ((i : I) → Returns (P i) m)
      → Returns (λ a w. (i : I) → P i a w) m
  Returns-all i P (ok a w) h = h
  Returns-all i P fault h = h i
  Returns-all i P out_of_fuel h = h i

  pub Returns-and :
      (P Q : A → World H L → Type 0) (m : Run H L A)
      → Returns P m
      → Returns Q m
      → Returns (λ a w. P a w × Q a w) m
  Returns-and P Q (ok a w) p q = (p, q)
  Returns-and P Q fault p q = p
  Returns-and P Q out_of_fuel p q = p

  pub Returns-mono :
      (P Q : A → World H L → Type 0) (m : Run H L A)
      → Returns P m
      → ((a : A) (w : World H L) → P a w → Q a w)
      → Returns Q m
  Returns-mono P Q (ok a w) p next = next a w p
  Returns-mono P Q fault p next = p
  Returns-mono P Q out_of_fuel p next = p

abbrev pub write : Heap → Ptr → UidReserveRecord → Heap
write h p r q = if p == q then some r else h q

module _ {H L : Type 0} where
  abbrev pub pure : {A : Type 0} → A → Cmd H L A
  pure a w = ok a w

  infixl 5 ◌>>=◌ ◌>>◌
  abbrev pub ◌>>=◌ : {A B : Type 0} → Cmd H L A → (A → Cmd H L B) → Cmd H L B
  ◌>>=◌ m f w = elim (m w) [ ok a w' ↦ f a w' | fault ↦ fault | out_of_fuel ↦ out_of_fuel ]

  abbrev pub ◌>>◌ : {B : Type 0} → Cmd H L (Unit {0}) → Cmd H L B → Cmd H L B
  m >> k = m >>= λ _. k

  abbrev pub assert : Bool → Cmd H L (Unit {0})
  assert true w = ok tt w
  assert false w = fault

  abbrev pub gets : {A : Type 0} → (World H L → A) → Cmd H L A
  gets f w = ok (f w) w

  abbrev pub found_at : Option UidReserveRecord → Cmd H L UidReserveRecord
  found_at none w = fault
  found_at (some r) w = ok r w

  abbrev pub load : Ptr → Cmd H L UidReserveRecord
  load p w = found_at (w.heap p) w

  abbrev pub store : Ptr → UidReserveRecord → Cmd H L (Unit {0})
  store p r w = ok tt (record w { heap = write w.heap p r })

  abbrev pub logged : World H L → Call → ℤ → World H L
  logged w c r = record w { trace = record { call = c; ret = r } ∷ w.trace }

  module _ (env : Env H L) where
    abbrev pub perform : Call → Cmd H L ℤ
    perform c w = ok (env.result w.trace c) (logged w c (env.result w.trace c))

    abbrev pub perform_ : Call → Cmd H L (Unit {0})
    perform_ c w = ok tt (logged w c (env.result w.trace c))
