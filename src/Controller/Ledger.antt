-- ===== src/Controller/Ledger.antt =====
-- statReserve of CinderUserspace/PowerArbiter/controller.c and the objects of the kernel.
use cinder_userspace.Base.{
  ℕ, ◌≡◌, false, Option, none, some, List, ◌∷◌, arith, ◌==◌, Option-cases, Bool-cases, inl, inr,
  if◌then◌else◌,
}
use cinder_userspace.Base.Int.{ℤ}
use cinder_userspace.Os.{Ptr, null, Env}
use cinder_userspace.Os.Ledger.{reserves, taps}
use cinder_userspace.Store.{World, UidReserveData, Returns}
use cinder_userspace.Context.{PaContext}
use cinder_userspace.Dbase.Invariant.{Inv, heap_null}
use cinder_userspace.Dbase.View.{entry}
use cinder_userspace.Controller.Stat.{created}
use cinder_userspace.Controller.{stat_reserve}

-- The reserve and the tap that an entry came to hold.
abbrev pub gained :
    (UidReserveData → ℤ) → Option UidReserveData → Option UidReserveData → List ℤ → List ℤ
gained id before none held = held
gained id before (some d) held =
    if created before then held else if d.reserve_created then id d ∷ held else held

module _ {H L : Type 0} (env : Env H L) (c : PaContext) (uid : ℕ) (task : ℤ) (remote : ℕ)
    (w : World H L) (db : (c.dbase == null) ≡ false) (v : Inv env w) where
  open env.hash use {find}

  -- What statReserve creates and its entry does not keep, it asks the kernel to take back, on any
  -- path: given the invariant, the reserves and taps that were created and that no call was made to
  -- give back, whatever such a call returned, are afterwards those of before, and one more of each
  -- exactly if the entry of the uid came to hold it.
  pub stat_reserve-ledger :
      (rid flags : Ptr)
      → Returns
          (λ a w'.
            (reserves w'.trace
              ≡ gained (λ d. d.reserve_id) (entry env w uid) (entry env w' uid) (reserves w.trace))
            × (taps w'.trace
                ≡ gained (λ d. d.tap_id) (entry env w uid) (entry env w' uid) (taps w.trace)))
          (stat_reserve env (some c) uid task remote rid flags w)
  unfolding stat_reserve reserves taps
  stat_reserve-ledger rid flags = elim (Option-cases (find w.active uid)) [
    | inl e ↦ ground arith
    | inr (p, e) ↦ elim (Option-cases (w.heap p)) [
      | inl out ↦ absurd (ground (arith, v.keyed uid p e))
      | inr (r, here) ↦ elim (Bool-cases (r.reserve_data.reserve_created)) [
        | inl old ↦ ground (arith, heap_null env w v)
        | inr new ↦ ground (arith, heap_null env w v)
      ]
    ]
  ]
