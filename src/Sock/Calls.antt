-- ===== src/Sock/Calls.antt =====
-- Steps that only send and receive, as the loops of sock.c do.
use cinder_userspace.Base.{◌≡◌, refl, Bool, true, false, ◌∷◌, arith, ◌∙◌}
use cinder_userspace.Os.{Ptr, Mutex, Call, recv, send, Event, Trace, allocated, Env}
use cinder_userspace.Os.Ledger.{reserves, locked, opened}
use cinder_userspace.Store.{World}
use cinder_userspace.Dbase.Invariant.{Inv}

abbrev pub is_socket_call : Call → Bool
is_socket_call (recv sock n) = true
is_socket_call (send sock bytes) = true
is_socket_call c = false

pub data SocketCalls (t : Trace) : Trace → Type 0 where
  none_yet : SocketCalls t t
  one_more :
      {u : Trace} (e : Event)
      → is_socket_call e.call ≡ true
      → SocketCalls t u
      → SocketCalls t (e ∷ u)

pub SocketCalls-trans : {t u v : Trace} → SocketCalls t u → SocketCalls u v → SocketCalls t v
SocketCalls-trans s none_yet = s
SocketCalls-trans s (one_more e c r) = one_more e c (SocketCalls-trans s r)

pub allocated-SocketCalls :
    {t u : Trace} (p : Ptr) → SocketCalls t u → allocated p u ≡ allocated p t
unfolding allocated
allocated-SocketCalls p none_yet = refl
allocated-SocketCalls p (one_more e c s) = ground (arith, allocated-SocketCalls p s)

pub locked-SocketCalls : {t u : Trace} (m : Mutex) → SocketCalls t u → locked m u ≡ locked m t
unfolding locked
locked-SocketCalls m none_yet = refl
locked-SocketCalls m (one_more e c s) = ground (arith, locked-SocketCalls m s)

pub reserves-SocketCalls : {t u : Trace} → SocketCalls t u → reserves u ≡ reserves t
unfolding reserves
reserves-SocketCalls none_yet = refl
reserves-SocketCalls (one_more e c s) = ground (arith, reserves-SocketCalls s)

pub opened-SocketCalls : {t u : Trace} → SocketCalls t u → opened u ≡ opened t
unfolding opened
opened-SocketCalls none_yet = refl
opened-SocketCalls (one_more e c s) = ground (arith, opened-SocketCalls s)

module _ {H L : Type 0} where
  -- The shared state is as it was, and the calls are `recv` and `send`.
  pub record OnSocket (w w' : World H L) : Type 0 where
    pub active : w'.active ≡ w.active
    pub dead_list : w'.dead_list ≡ w.dead_list
    pub heap : w'.heap ≡ w.heap
    pub calls : SocketCalls w.trace w'.trace

  pub OnSocket-trans : (u v w : World H L) → OnSocket u v → OnSocket v w → OnSocket u w
  OnSocket-trans u v w s r = record {
    active = r.active ∙ s.active;
    dead_list = r.dead_list ∙ s.dead_list;
    heap = r.heap ∙ s.heap;
    calls = SocketCalls-trans s.calls r.calls;
  }

  pub OnSocket-Inv : (env : Env H L) (w w' : World H L) → OnSocket w w' → Inv env w → Inv env w'
  OnSocket-Inv env w w' s v = record {
    table = rw s.active v.table;
    keyed = λ k q h. ground (arith, s, v.keyed k q);
    buried = λ q h. ground (arith, s, v.buried q);
    apart = λ k q h. ground (arith, s, v.apart k q);
    distinct = rw s.dead_list v.distinct;
    in_memory = λ q h. ground (arith, s.heap, allocated-SocketCalls q s.calls, v.in_memory q);
  }
