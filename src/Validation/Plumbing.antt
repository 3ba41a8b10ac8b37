-- ===== src/Validation/Plumbing.antt =====
-- CinderUserspace/cinder_validation/plumbing_test/cinder_ptest.c: the prompts of its handlers, with
-- what it prints.
pub mod Reserves
pub mod Taps
pub mod Commands
pub mod Calls
pub mod Ends
pub mod Agrees
use Prim.Native.String.{String}
use cinder_userspace.Base.{ℕ, List, ◌++◌, none, some}
use cinder_userspace.Base.Int.{ℤ, einval}
use cinder_userspace.Base.Text.{codes, format_d, word_32}
use cinder_userspace.Os.{Env, print}
use cinder_userspace.Store.{Cmd, pure, ◌>>=◌, ◌>>◌, perform_}
use cinder_userspace.Stdin.{fgets}
use cinder_userspace.Console.{Handler}

-- A text with no argument, and one with a number between two texts.
unfoldable pub text : String → List ℕ
text s = codes s

unfoldable pub with_number : (front : String) (number : ℤ) (back : String) → List ℕ
unfolding format_d
with_number front number back = codes front ++ (format_d (word_32 number) ++ codes back)

module _ {H L : Type 0} (env : Env H L) where
  abbrev pub say : List ℕ → Cmd H L (Unit {0})
  say line = perform_ env (print line)

  -- A question and the line that answers it; at the end of the input a complaint, and -EINVAL.
  abbrev pub with_line :
      (question complaint : String) (size : ℕ) (next : List ℕ → Handler H L) → Handler H L
  with_line question complaint size next input = do
    say (text question)
    elim ((fgets size input).0) [
      | none ↦ (do say (text complaint); pure (einval, (fgets size input).1))
      | some line ↦ next line ((fgets size input).1)
    ]

  -- The report of a result, which the handler returns.
  abbrev pub reporting : (report : ℤ → List ℕ) → Cmd H L ℤ → Handler H L
  reporting report call input = do ret ← call; say (report ret); pure (ret, input)
