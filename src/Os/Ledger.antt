-- ===== src/Os/Ledger.antt =====
-- What the calls made so far say of the reserves, of the taps and of the locks of the process.
use cinder_userspace.Base.{
  ℕ, ◌+◌, ◌++◌, take, Bool, true, false, List, [], ◌∷◌, ◌&&◌, ◌==◌, ltb, ◌||◌, not, if◌then◌else◌,
}
use cinder_userspace.Base.Int.{ℤ, negsuc, pos_part, is_neg, is_zero, eq_ℤ}
use cinder_userspace.Os.{
  Mutex, same_mutex, Call, mutex_lock, mutex_unlock, mutex_init, malloc, sys_set_tap_rate,
  sys_expose_reserve, socket, accept, close, sem_post, reaper_thread_exited, send, recv,
  sys_create_reserve, sys_put_reserve, sys_create_tap, sys_delete_tap, syscall, Trace,
}

-- Without the first entry for `id`.
abbrev pub erase : ℤ → List ℤ → List ℤ
erase id [] = []
erase id (x ∷ xs) = if eq_ℤ x id then xs else x ∷ erase id xs

abbrev pub reserves_after : Call → ℤ → List ℤ → List ℤ
reserves_after (sys_create_reserve name len) r held = if is_neg r then held else r ∷ held
reserves_after (sys_put_reserve id) r held = erase id held
reserves_after _ r held = held

-- The reserves that were created and were not put back since, the newest first.
unfoldable pub reserves : Trace → List ℤ
reserves [] = []
reserves (e ∷ t) = reserves_after e.call e.ret (reserves t)

abbrev pub taps_after : Call → ℤ → List ℤ → List ℤ
taps_after (sys_create_tap name len src dest) r held = if is_neg r then held else r ∷ held
taps_after (sys_delete_tap id) r held = erase id held
taps_after _ r held = held

unfoldable pub taps : Trace → List ℤ
taps [] = []
taps (e ∷ t) = taps_after e.call e.ret (taps t)

abbrev pub locked_after : Mutex → Call → ℤ → Bool → Bool
locked_after m (mutex_lock l) r before = if same_mutex l m && is_zero r then true else before
locked_after m (mutex_unlock l) r before = if same_mutex l m then false else before
locked_after m _ r before = before

-- Is the mutex locked, and not unlocked since?
unfoldable pub locked : Mutex → Trace → Bool
locked m [] = false
locked m (e ∷ t) = locked_after m e.call e.ret (locked m t)

abbrev pub delivered_after : ℤ → Call → ℤ → List ℕ → List ℕ
delivered_after sock (send s bytes) r before =
    if eq_ℤ s sock then before ++ take (pos_part r) bytes else before
delivered_after sock _ r before = before

-- The bytes that the peer of a socket was sent, in order.
unfoldable pub delivered : ℤ → Trace → List ℕ
delivered sock [] = []
delivered sock (e ∷ t) = delivered_after sock e.call e.ret (delivered sock t)

abbrev pub puts_after : ℤ → Call → ℕ → ℕ
puts_after id (sys_put_reserve i) before = if eq_ℤ i id then before + 1 else before
puts_after id _ before = before

-- How often the reserve was put back.
unfoldable pub puts : ℤ → Trace → ℕ
puts id [] = 0
puts id (e ∷ t) = puts_after id e.call (puts id t)

-- Does the return value say that the call failed? The code ignores those of the other calls.
abbrev pub fails : Call → ℤ → Bool
fails (mutex_lock m) r = not (is_zero r)
fails (mutex_init m) r = not (is_zero r)
fails malloc r = pos_part r == 0
fails (sys_create_reserve name len) r = is_neg r
fails (sys_create_tap name len src dest) r = is_neg r
fails (sys_set_tap_rate tap kind value) r = not (is_zero r)
fails (sys_expose_reserve task id caps) r = not (is_zero r)
fails _ r = false

-- How many calls failed.
unfoldable pub failures : Trace → ℕ
failures [] = 0
failures (e ∷ t) = if fails e.call e.ret then failures t + 1 else failures t

-- A call failed between the two traces, or else the result is the one that is expected.
abbrev pub unless_failed : (before after : Trace) → (result expected : ℤ) → Bool
unless_failed before after result expected =
    ltb (failures before) (failures after) || eq_ℤ result expected

abbrev pub is_post : Call → Bool
is_post (sem_post reaper_thread_exited) = true
is_post _ = false

-- Did the reaper say that it quits?
unfoldable pub posted : Trace → Bool
posted [] = false
posted (e ∷ t) = is_post e.call || posted t

abbrev pub opened_after : Call → ℤ → List ℤ → List ℤ
opened_after socket r held = if eq_ℤ r (negsuc 0) then held else r ∷ held
opened_after (accept sock) r held = if eq_ℤ r (negsuc 0) then held else r ∷ held
opened_after (close sock) r held = erase sock held
opened_after _ r held = held

-- The sockets that were made and not closed since, the newest first.
unfoldable pub opened : Trace → List ℤ
opened [] = []
opened (e ∷ t) = opened_after e.call e.ret (opened t)

abbrev pub asked_after : ℕ → Call → List (List ℤ) → List (List ℤ)
asked_after number (syscall k arguments) before =
    if k == number then before ++ arguments ∷ [] else before
asked_after number _ before = before

-- The arguments of each call of a system call by its number, in order.
unfoldable pub asked : ℕ → Trace → List (List ℤ)
asked number [] = []
asked number (e ∷ t) = asked_after number e.call (asked number t)

abbrev pub received_after : Call → ℤ → ℕ → ℕ
received_after (recv sock n) r before = before + pos_part r
received_after _ r before = before

-- How many bytes were received.
unfoldable pub bytes_received : Trace → ℕ
bytes_received [] = 0
bytes_received (e ∷ t) = received_after e.call e.ret (bytes_received t)
