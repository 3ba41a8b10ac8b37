-- ===== src/Validation/Plumbing/Ends.antt =====
-- The commands of cinder_ptest.c end.
use Prim.Native.String.{String}
use cinder_userspace.Base.{ℕ, ◌≤◌, ◌≡◌, List, length}
use cinder_userspace.Os.{Env, print}
use cinder_userspace.Store.{◌>>◌, World, Returns, logged}
use cinder_userspace.Console.{Handler}
use cinder_userspace.Validation.Plumbing.{text}

module _ {H L : Type 0} where
  -- A handler ends, and leaves no more of the input than there was.
  record Ends (handler : Handler H L) : Type 0 where
    ends :
        (input : List ℕ) (w : World H L)
        → Returns (λ a w'. length (a.1) ≤ length input) (handler input w)

abbrev pub said : {H L : Type 0} → Env H L → World H L → List ℕ → World H L
said env w line = logged w (print line) (env.result w.trace (print line))

-- The last thing that was printed is that the input is at its end.
abbrev pub AtEnd : {H L : Type 0} → Env H L → World H L → Type 0
AtEnd {H = H} {L = L} env w = (u : World H L) × (w ≡ said env u (text "Got EOF, quitting...\n"))
