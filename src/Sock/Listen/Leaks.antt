-- ===== src/Sock/Listen/Leaks.antt =====
-- The open sockets behind create_listening_ud_sock of CinderUserspace/PowerArbiter/sock.c.
use cinder_userspace.Base.{
  take, not, Bool, true, false, ℕ, ◌≡◌, refl, List, ◌∷◌, Option, none, some, arith,
}
use cinder_userspace.Base.Int.{is_zero, eq_ℤ, ℤ}
use cinder_userspace.Os.{Trace, Call, socket, unlink, bind, listen, Ptr, Env}
use cinder_userspace.Os.Ledger.{opened}
use cinder_userspace.Store.{World, Returns, logged}
use cinder_userspace.Dbase.Invariant.{is_some}
use cinder_userspace.Sock.{minus_one}
use cinder_userspace.Sock.Listen.{sun_path_length, create_listening_ud_sock}

abbrev pub with_socket : Option ℤ → List ℤ → List ℤ
with_socket none held = held
with_socket (some sock) held = sock ∷ held

abbrev pub valid_socket : Option ℤ → Bool
valid_socket none = true
valid_socket (some sock) = not (eq_ℤ sock minus_one)

module _ {H L : Type 0} (env : Env H L) where
  -- The socket that is stored is the one that is open more; the database is as it was.
  pub record Listening (w : World H L) (a : ℤ × Option ℤ) (w' : World H L) : Type 0 where
    pub sockets : opened w'.trace ≡ with_socket (a.1) (opened w.trace)
    pub active : w'.active ≡ w.active
    pub dead_list : w'.dead_list ≡ w.dead_list
    pub valid : valid_socket (a.1) ≡ true

  -- create_listening_ud_sock ends on every path with the socket that it stores open, and no other
  -- left open where it stores none; the database is as it was.
  pub create_listening_ud_sock-Listening :
      (path : Option (List ℕ)) (backlog : ℕ) (sock_loc : Ptr) (w : World H L)
      → Returns (Listening w) (create_listening_ud_sock env path backlog sock_loc w)
  unfolding create_listening_ud_sock opened
  create_listening_ud_sock-Listening none backlog sock_loc w = record {
    sockets = refl;
    active = refl;
    dead_list = refl;
    valid = refl;
  }
  create_listening_ud_sock-Listening (some path) backlog sock_loc w = ground arith

  -- The result is 0 exactly if a socket is stored.
  abbrev pub Agrees : ℤ × Option ℤ → World H L → Type 0
  Agrees (err, sock) w = is_zero err ≡ is_some sock

  -- Where a failing call sets errno, the result is 0 exactly if a socket is stored.
  pub create_listening_ud_sock-error :
      (errno_set : (t : Trace) → is_zero (env.errno t) ≡ false) (path : Option (List ℕ))
      (backlog : ℕ) (sock_loc : Ptr) (w : World H L)
      → Returns
          (λ a w'. is_zero (a.0) ≡ is_some (a.1))
          (create_listening_ud_sock env path backlog sock_loc w)
  unfolding create_listening_ud_sock
  create_listening_ud_sock-error errno_set none backlog sock_loc w = refl
  create_listening_ud_sock-error errno_set (some path) backlog sock_loc w =
      ground (arith, errno_set made.trace, errno_set bound.trace, errno_set listening.trace)
    where
      fd : ℤ
      fd = env.result w.trace socket

      made : World H L
      made = logged w socket fd

      unlinked : World H L
      unlinked = logged made (unlink path) (env.result made.trace (unlink path))

      name : Call
      name = bind fd (take sun_path_length path)

      bound : World H L
      bound = logged unlinked name (env.result unlinked.trace name)

      listening : World H L
      listening = logged bound (listen fd backlog) (env.result bound.trace (listen fd backlog))
