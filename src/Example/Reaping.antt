-- ===== src/Example/Reaping.antt =====
-- The reaper at concrete inputs.
use cinder_userspace.Base.{ℕ, zero, suc, ◌≡◌, refl, true}
use cinder_userspace.Base.Int.{ℤ, pos}
use cinder_userspace.Os.{dbase_lock}
use cinder_userspace.Os.Ledger.{posted}
use cinder_userspace.Store.{out_of_fuel, Returns}
use cinder_userspace.Context.{PaContext}
use cinder_userspace.Dbase.{add_entry, remove_entry}
use cinder_userspace.Controller.{stat_reserve, remove_reserve_params_for_uid}
use cinder_userspace.Reaper.{reaper_thread_loop}
use cinder_userspace.Reaper.Shutdown.{reaper_never_quits}
use cinder_userspace.Reaper.Quit.{reaper_quits}
use cinder_userspace.Example.{calm, start}
use cinder_userspace.Example.Worlds.{context, loaded, granted, buried, buried_Safe}

-- The flag is set before the third round.
abbrev flag : ℕ → ℤ
flag zero = pos 0
flag (suc zero) = pos 0
flag (suc (suc n)) = pos 1

abbrev contexts : ℕ → PaContext
contexts n = record context { reaper_should_exit = flag n }

reaper_never_quits_example : reaper_thread_loop calm contexts 10 0 (pos 0) buried ≡ out_of_fuel
unfolding buried granted stat_reserve loaded add_entry remove_reserve_params_for_uid remove_entry
reaper_never_quits_example =
    reaper_never_quits calm (λ t id. refl) (λ t id. refl) (λ t m. refl) contexts (λ n. refl) 10 0
      (pos 0) buried refl (buried_Safe.free dbase_lock) buried_Safe.inv

reaper_quits_example :
    Returns
      (λ a w'. (a ≡ pos 0) × (posted w'.trace ≡ true))
      (reaper_thread_loop calm contexts 3 0 (pos 0) start)
reaper_quits_example =
    reaper_quits calm (λ t m. refl) contexts (λ n. refl) 2 0 (pos 0) start refl refl
