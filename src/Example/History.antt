-- ===== src/Example/History.antt =====
-- The theorems on sequences of requests, at concrete ones.
use cinder_userspace.Base.{ℕ, ◌≡◌, refl, List, [], ◌∷◌, some, true}
use cinder_userspace.Base.Int.{ℤ, pos, is_zero, is_pos}
use cinder_userspace.Os.{Trace}
use cinder_userspace.Store.{World, Returns}
use cinder_userspace.Record.{local}
use cinder_userspace.Context.{pa_reserve_granted}
use cinder_userspace.Dbase.{add_entry}
use cinder_userspace.Dbase.View.{entry, params_of}
use cinder_userspace.Controller.{stat_reserve}
use cinder_userspace.Controller.Safe.{Safe}
use cinder_userspace.History.{
  Request, stat, set, run_request, History, begin, then_request, replayed, was_removed,
}
use cinder_userspace.History.Effect.{Effect}
use cinder_userspace.History.Refines.{history_refines}
use cinder_userspace.History.Grants.{grants_stay}
use cinder_userspace.Example.{calm}
use cinder_userspace.Example.Table.{Pairs}
use cinder_userspace.Example.Worlds.{
  context, end_of, loaded, loaded_Inv, loaded_free, granted, granted_Safe,
}

used : (t : Trace) (id : ℤ) → is_pos (calm.num_users t id) ≡ true
used t id = refl

abbrev ask : Request
ask = stat 10045 (pos 900) 1000

abbrev change : Request
change = set 10045 (pos 901) 0 2 (pos 25)

-- The uid with a reserve has its parameters changed.
unfoldable changed : World Pairs (List ℕ)
unfolding run_request granted
changed = end_of (run_request calm context change granted)

asked : History calm context loaded ((ask, pos 0) ∷ []) granted
unfolding granted stat_reserve loaded add_entry run_request
asked = then_request begin ask (pos 0) granted refl

asked_changed : History calm context granted ((change, pos 0) ∷ []) changed
unfolding granted stat_reserve loaded add_entry run_request changed
asked_changed = then_request begin change (pos 0) changed refl

history_refines_example :
    Safe calm granted
    × ((k : ℕ)
        → params_of (entry calm granted k)
          ≡ replayed ((ask, pos 0) ∷ []) (λ j. params_of (entry calm loaded j)) k)
    × ((r : Request) → Returns (Effect calm r granted) (run_request calm context r granted))
history_refines_example =
    history_refines calm used context refl loaded (record { inv = loaded_Inv; free = loaded_free })
      asked

grants_stay_example :
    Returns
      (λ a w'. is_zero (a.0) ≡ true → a.1 ≡ some (pos 14, pa_reserve_granted))
      (stat_reserve calm (some context) 10045 (pos 902) 0 local local changed)
unfolding granted stat_reserve loaded add_entry changed was_removed
grants_stay_example =
    grants_stay calm used context refl granted granted_Safe 10045 (pos 14) refl (pos 902) 0
      asked_changed refl
