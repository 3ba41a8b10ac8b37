-- ===== src/Daemon/Stops.antt =====
-- From the start to the end of CinderUserspace/PowerArbiter/main.c.
use cinder_userspace.Base.{ℕ, ◌≡◌, true, false, List, [], ◌∷◌, none, ◌⊎◌, Bool, not, ◌&&◌}
use cinder_userspace.Base.Int.{ℤ, pos, is_zero}
use cinder_userspace.Os.{Env}
use cinder_userspace.Os.Ledger.{opened}
use cinder_userspace.Store.{World}
use cinder_userspace.Init.Started.{Started}
use cinder_userspace.Init.Vacant.{Vacant}
use cinder_userspace.History.{Request, stat, get, remove, set, add, pass}
use cinder_userspace.Daemon.{exit_failure}

-- A request that adds no uid.
abbrev pub adds : Request → Bool
adds (add uid task remote tap_type tap_value) = true
adds (stat uid task remote) = false
adds (get uid task remote) = false
adds (remove uid task remote) = false
adds (set uid task remote tap_type tap_value) = false
adds pass = false

abbrev pub no_adds : List Request → Bool
no_adds [] = true
no_adds (r ∷ rs) = not (adds r) && no_adds rs

module _ {H L : Type 0} (env : Env H L) where
  open env.hash use {find, items}

  -- Nothing stands in the database.
  pub record Idle (w : World H L) : Type 0 where
    pub absent : (k : ℕ) → find w.active k ≡ none
    pub none_active : items w.active ≡ []
    pub no_active : env.hash.is_null w.active ≡ true
    pub no_dead : env.list.is_empty w.dead_list ≡ true

  -- The database and the sockets are as they were.
  abbrev Untouched : (w w' : World H L) → Type 0
  Untouched w w' =
      (w'.active ≡ w.active) × (w'.dead_list ≡ w.dead_list) × (opened w'.trace ≡ opened w.trace)

  -- The exit status is 0 or 1; if it is 0, the sockets are those of before.
  pub record Stopped (w : World H L) (status : ℤ) (w' : World H L) : Type 0 where
    pub exits : (status ≡ pos 0) ⊎ (status ≡ exit_failure)
    pub closed : is_zero status ≡ true → opened w'.trace ≡ opened w.trace
