-- ===== src/Example/Starting.antt =====
-- The start of the daemon and its receiver at concrete inputs.
use cinder_userspace.Base.{List, ℕ, zero, suc, ◌≡◌, refl, ◌++◌, [], ◌∷◌}
use cinder_userspace.Base.Int.{ℤ, pos}
use cinder_userspace.Os.Ledger.{opened}
use cinder_userspace.Store.{Returns}
use cinder_userspace.Context.{PaContext}
use cinder_userspace.Client.Accept.{receiver_thread_loop}
use cinder_userspace.Client.Accept.Sockets.{sockets, receiver_thread_loop-opened}
use cinder_userspace.Init.{power_arbiter_initialize}
use cinder_userspace.Init.Started.{Started, power_arbiter_initialize-Started}
use cinder_userspace.History.{Request, stat, pass}
use cinder_userspace.Example.{calm, start}
use cinder_userspace.Example.Worlds.{context}

-- The daemon becomes inactive before the third round.
abbrev flag : ℕ → ℤ
flag zero = pos 1
flag (suc zero) = pos 1
flag (suc (suc n)) = pos 0

abbrev contexts : ℕ → PaContext
contexts n = record context { active = flag n }

receiver_thread_loop-opened_example :
    Returns
      (λ a w'. (a.0 ≡ pos 0) × (opened w'.trace ≡ sockets (a.1) ++ []))
      (receiver_thread_loop calm contexts 3 0 [] start)
unfolding opened
receiver_thread_loop-opened_example =
    receiver_thread_loop-opened calm contexts [] 2 0 [] start refl refl

power_arbiter_initialize-Started_example :
    Returns (Started calm start) (power_arbiter_initialize calm 8 start)
power_arbiter_initialize-Started_example = power_arbiter_initialize-Started calm (λ t. refl) 8 start

-- A client asks for a reserve, and the reaper passes once.
abbrev asked_once : List Request
asked_once = stat 10045 (pos 900) 0 ∷ pass ∷ []
