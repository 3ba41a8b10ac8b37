-- ===== src/Example/Session.antt =====
-- The theorems on a session, with a client that sends some bytes and closes the connection.
use cinder_userspace.Base.{
  ℕ, ◌≡◌, ◌≤◌, refl, true, List, ◌++◌, length, drop, leb, arith, if◌then◌else◌,
}
use cinder_userspace.Base.Int.{ℤ, pos}
use cinder_userspace.Os.{Trace, Call, recv, Env}
use cinder_userspace.Os.Ledger.{bytes_received, locked}
use cinder_userspace.Store.{Returns}
use cinder_userspace.Context.{pa_get_tap_params, pa_add_uid_params}
use cinder_userspace.Wire.{bytes}
use cinder_userspace.Controller.Safe.{Safe}
use cinder_userspace.Client.{handle_request, do_handle_client}
use cinder_userspace.Client.Safe.{accepted_client}
use cinder_userspace.Client.Answers.{Answered}
use cinder_userspace.Client.Session.{
  response_size, handle_request-Answered, Left, do_handle_client-Left,
}
use cinder_userspace.Example.{calm, start, willing, padded, length-padded, leb_self, with_malloc}
use cinder_userspace.Example.Table.{Pairs}
use cinder_userspace.Example.Requests.{adder}
use cinder_userspace.Example.Worlds.{context, granted, granted_Safe}

-- The client asks to add parameters.
input : List ℕ
unfolding bytes adder
input = bytes 4 pa_add_uid_params ++ adder

-- How many bytes a `recv` of at most `n` takes.
abbrev taken : Trace → ℕ → ℕ
taken t n = if leb (length input) (bytes_received t) then 0 else n

abbrev answer : Trace → Call → ℤ
answer t (recv sock n) = pos (taken t n)
answer t c = with_malloc willing t c

taken_within : (t : Trace) (n : ℕ) → leb (taken t n) n ≡ true
taken_within t n = ground arith

-- The client sends `input` and then closes the connection.
abbrev leaver : Env Pairs (List ℕ)
leaver = record {
  hash = calm.hash;
  list = calm.list;
  result = answer;
  num_users = calm.num_users;
  indeterminate = calm.indeterminate;
  errno = calm.errno;
  peer = calm.peer;
  received = λ t sock n. padded (taken t n) (drop (bytes_received t) input);
  recv_within = λ t sock n. taken_within t n;
  send_within = λ t sock bytes. leb_self (length bytes);
  send_progress = calm.send_progress;
  length-received = λ t sock n. length-padded (taken t n) (drop (bytes_received t) input);
  malloc_fresh = calm.malloc_fresh;
}

closes :
    (t : Trace) (n : ℕ) → length input ≤ bytes_received t → leaver.result t (recv (pos 3) n) ≡ pos 0
closes t n h = let e : leb (length input) (bytes_received t) ≡ true = ground arith in rw e refl

start-Safe : Safe leaver start
unfolding locked
start-Safe = record {
  inv = record {
    table = refl;
    keyed = λ k p h. cc;
    buried = λ p h. cc;
    apart = λ k p h. refl;
    distinct = tt;
    in_memory = λ p h. refl;
  };
  free = λ m. refl;
}

do_handle_client-Left_example :
    Returns
      (λ err. Left leaver (pos 3) 60 start)
      (do_handle_client leaver 29 60 (accepted_client context (pos 3) 0 0 (pos 900)) start)
unfolding input bytes adder bytes_received
do_handle_client-Left_example =
    do_handle_client-Left leaver (λ t. refl) context (pos 3) 0 0 (pos 900) refl refl (length input)
      closes 28 60 start (omega arith) start-Safe

handle_request-Answered_example :
    Returns (Answered calm (λ t. refl) (pos 3) refl (response_size pa_get_tap_params) granted) (
      handle_request calm (accepted_client context (pos 3) 0 0 (pos 900)) pa_get_tap_params granted)
handle_request-Answered_example =
    handle_request-Answered calm (λ t. refl) context (pos 3) 0 0 (pos 900) refl refl
      pa_get_tap_params granted granted_Safe
