-- ===== src/Dbase/Clear/Passes.antt =====
-- The invariant over a pass of the reaper.
use cinder_userspace.Base.{◌≡◌, refl, true, false, [], some, ◌==◌}
use cinder_userspace.Base.Int.{ℤ, pos, is_pos}
use cinder_userspace.Os.{Ptr, null, dbase_lock, Trace, Env}
use cinder_userspace.Os.Ledger.{locked}
use cinder_userspace.Store.{World, Returns, Returns-mono, Returns-all}
use cinder_userspace.Dbase.{clear_unused}
use cinder_userspace.Dbase.Invariant.{Inv}
use cinder_userspace.Dbase.Steady.{Steady, Steady-Inv}
use cinder_userspace.Dbase.Clear.{Passed, clear_unused-Passed}

module _ {H L : Type 0} (env : Env H L)
    (used : (t : Trace) (id : ℤ) → is_pos (env.num_users t id) ≡ true) where
  open env.list use {entries}

  -- A pass keeps the invariant.
  pub clear_unused-Inv :
      (dbase loc : Ptr) (w : World H L)
      → (dbase == null) ≡ false
      → (loc == null) ≡ false
      → locked dbase_lock w.trace ≡ false
      → Inv env w
      → Returns (λ a. Inv env) (clear_unused env dbase loc w)
  clear_unused-Inv dbase loc w g1 g2 free v =
      Returns-mono (λ a w'. (q : Ptr) → Steady q w w') _ _
        (Returns-all 0 (λ q a w'. Steady q w w') _
          (λ q.
            Returns-mono
              (λ a w'.
                Passed env (pos 0) dbase_lock q w w'
                × (a.1 ≡ some (pos 1) → entries w.dead_list ≡ []))
              _ _ (clear_unused-Passed env used (pos 0) dbase_lock q dbase loc w g1 g2 free v)
              (λ a w' s. record {
                active = s.0.active;
                dead_list = s.0.dead_list;
                key = rw s.0.heap refl;
                memory = s.0.memory;
              })))
        (λ a w' s. Steady-Inv env w w' s v)
