-- ===== src/Example.antt =====
-- A concrete environment, at which the theorems are tried: a table that is a list of keys and
-- addresses, a list that is a list of addresses, an allocator that never uses an address twice.
pub mod Table
pub mod Runs
pub mod Worlds
pub mod Database
pub mod Sockets
pub mod Starting
pub mod Reaping
pub mod Results
pub mod Requests
pub mod Session
pub mod Trials
pub mod Console
pub mod History
use cinder_userspace.Base.{
  ℕ, Bool, ◌+◌, ◌<◌, none, inl, inr, Bool-cases, ◌≡◌, refl, true, false, List, [], ◌∷◌, ◌++◌, arith,
  zero, suc, ap, drop, leb, ltb, ◌==◌, if◌then◌else◌, length,
}
use cinder_userspace.Base.Int.{ℤ, pos, pos_part, is_zero}
use cinder_userspace.Os.{
  Ptr, Call, malloc, recv, send, Trace, Event, allocated, LinkedList, HashTable, Env,
  sys_create_reserve, sys_create_tap,
}
use cinder_userspace.Store.{World}
use Table.{Pairs, list_table}

abbrev pub is_nil : List Ptr → Bool
is_nil [] = true
is_nil (p ∷ ps) = false

pub nil_of_is_nil : (ps : List Ptr) → is_nil ps ≡ true → ps ≡ []
nil_of_is_nil [] e = refl
nil_of_is_nil (p ∷ ps) e = cc

pub is_nil_of_nil : (ps : List Ptr) → ps ≡ [] → is_nil ps ≡ true
is_nil_of_nil [] e = refl
is_nil_of_nil (p ∷ ps) e = cc

abbrev pub list_list : LinkedList (List Ptr)
list_list = record {
  init = [];
  add_tail = λ p l. l ++ p ∷ [];
  is_empty = is_nil;
  entries = λ l. l;
  entries-init = refl;
  entries-add_tail = λ p l out. refl;
  is_empty-entries = nil_of_is_nil;
  entries-is_empty = is_nil_of_nil;
}

-- An address that no call in the trace has returned.
abbrev pub unused : Trace → ℕ
unused [] = 100
unused (e ∷ t) = unused t + pos_part e.ret + 1

allocated-lt : (p : Ptr) (t : Trace) → allocated p t ≡ true → p < unused t
unfolding allocated
allocated-lt p [] h = cc
allocated-lt p (e ∷ t) h = ground (arith, allocated-lt p t)

pub unused_fresh : (t : Trace) → allocated (unused t) t ≡ false
unused_fresh t = elim (Bool-cases (allocated (unused t) t)) [
  | inl h ↦ absurd (omega (arith, allocated-lt (unused t) t h))
  | inr h ↦ h
]

abbrev pub consumed_by : Call → ℕ → ℕ
consumed_by (recv sock n) before = before + n
consumed_by c before = before

-- The number of the bytes received so far, and a list cut or filled up to `n` bytes.
abbrev pub consumed : Trace → ℕ
consumed [] = 0
consumed (e ∷ t) = consumed_by e.call (consumed t)

abbrev pub padded : ℕ → List ℕ → List ℕ
padded zero bytes = []
padded (suc n) [] = 0 ∷ padded n []
padded (suc n) (b ∷ bytes) = b ∷ padded n bytes

pub length-padded : (n : ℕ) (bytes : List ℕ) → length (padded n bytes) ≡ n
length-padded zero bytes = refl
length-padded (suc n) [] = ap suc (length-padded n [])
length-padded (suc n) (b ∷ bytes) = ap suc (length-padded n bytes)

-- `malloc` returns an address that is not in use; `answer` decides the system calls of Cinder and
-- those of pthreads.
abbrev pub with_malloc : (Trace → Call → ℤ) → Trace → Call → ℤ
with_malloc answer t malloc = pos (unused t)
with_malloc answer t (recv sock n) = pos n
with_malloc answer t (send sock bytes) = pos (length bytes)
with_malloc answer t c = answer t c

pub leb_self : (n : ℕ) → leb n n ≡ true
leb_self n = ground arith

pub not_zero : (n : ℕ) → ltb 0 n ≡ true → is_zero (pos n) ≡ false
not_zero n h = ground arith

-- `input` is what the peer sends: the next bytes behind those that were received.
abbrev pub environment : (Trace → Call → ℤ) → ℤ → List ℕ → Env Pairs (List Ptr)
environment answer users input = record {
  hash = list_table;
  list = list_list;
  result = with_malloc answer;
  num_users = λ t id. users;
  indeterminate = λ t n. pos 0;
  errno = λ t. pos 5;
  peer = λ t sock. (pos 900, 1000, 1000);
  received = λ t sock n. padded n (drop (consumed t) input);
  recv_within = λ t sock n. leb_self n;
  send_within = λ t sock bytes. leb_self (length bytes);
  send_progress = λ t sock bytes h. not_zero (length bytes) h;
  length-received = λ t sock n. length-padded n (drop (consumed t) input);
  malloc_fresh = unused_fresh;
}

-- Every call succeeds; a reserve or a tap gets the number of the calls made before, plus 7.
abbrev pub willing : Trace → Call → ℤ
willing t (sys_create_reserve name len) = pos (length t + 7)
willing t (sys_create_tap name len src dest) = pos (length t + 7)
willing t c = pos 0

abbrev pub calm : Env Pairs (List Ptr)
calm = environment willing (pos 1) []

abbrev pub start : World Pairs (List Ptr)
start = record { active = []; dead_list = []; heap = λ p. none; trace = [] }
