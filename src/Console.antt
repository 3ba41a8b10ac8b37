-- ===== src/Console.antt =====
-- CinderUserspace/PAController: the program that sends requests to the daemon by the commands that
-- it reads. A handler reads the answers to its prompts and then makes its calls; it leaves the rest
-- of the input. The texts of the prompts and of the error reports are left out.
pub mod Prompts
pub mod Reserves
pub mod Requests
pub mod Commands
pub mod Sent
pub mod Requested
pub mod Typed
pub mod Arrival
pub mod Ends
pub mod Closed
pub mod Accepted
pub mod Listed
pub mod Reported
pub mod Granted
use cinder_userspace.Base.{ℕ, List, none, some}
use cinder_userspace.Base.Int.{ℤ, einval}
use cinder_userspace.Store.{Cmd, pure, ◌>>=◌}
use cinder_userspace.Stdin.{Prompt}

abbrev pub Handler : (H L : Type 0) → Type 0
Handler H L = List ℕ → Cmd H L (ℤ × List ℕ)

-- Where the input ends, or an answer is refused, the handler returns -EINVAL.
abbrev pub on_answer : {H L A : Type 0} → Prompt A → (A → Cmd H L ℤ) → Handler H L
on_answer prompt calls input = elim ((prompt input).0) [
  | none ↦ pure (einval, (prompt input).1)
  | some a ↦ (do ret ← calls a; pure (ret, (prompt input).1))
]
