-- ===== src/Example/Database.antt =====
-- The theorems on the database, at the worlds of Example/Worlds.antt.
use cinder_userspace.Base.{◌≡◌, refl, [], some}
use cinder_userspace.Base.Int.{pos}
use cinder_userspace.Os.{dbase_lock}
use cinder_userspace.Store.{Returns}
use cinder_userspace.Dbase.{add_entry, remove_entry, clear_unused}
use cinder_userspace.Dbase.Remove.{Removed, remove_entry-Removed}
use cinder_userspace.Dbase.Clear.{Passed, clear_unused-Passed}
use cinder_userspace.Controller.{stat_reserve, remove_reserve_params_for_uid}
use cinder_userspace.Example.{calm}
use cinder_userspace.Example.Worlds.{loaded, loaded_Inv, granted, buried, buried_Safe}

remove_entry-Removed_example :
    Returns (Removed calm 10045 loaded) (remove_entry calm 50 10045 loaded)
remove_entry-Removed_example = remove_entry-Removed calm 50 10045 loaded refl loaded_Inv

clear_unused-Passed_example :
    Returns
      (λ a w'.
        Passed calm (pos 11) dbase_lock 3 buried w' × (a.1 ≡ some (pos 1) → buried.dead_list ≡ []))
      (clear_unused calm 50 8 buried)
unfolding buried granted stat_reserve loaded add_entry remove_reserve_params_for_uid remove_entry
clear_unused-Passed_example =
    clear_unused-Passed calm (λ t id. refl) (pos 11) dbase_lock 3 50 8 buried refl refl
      (buried_Safe.free dbase_lock) buried_Safe.inv
