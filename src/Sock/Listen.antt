-- ===== src/Sock/Listen.antt =====
-- The sockets of the daemon in CinderUserspace/PowerArbiter/sock.c: the one that listens, and the
-- credentials of a peer. A path is the text without its last byte, and `none` is NULL.
pub mod Leaks
use cinder_userspace.Base.{ℕ, ◌||◌, List, Option, none, some, ◌==◌, if◌then◌else◌, take}
use cinder_userspace.Base.Int.{ℤ, pos, nonzero, eq_ℤ, einval}
use cinder_userspace.Os.{Ptr, null, socket, unlink, bind, listen, close, getsockopt_peercred, Env}
use cinder_userspace.Store.{Cmd, pure, ◌>>=◌, ◌>>◌, gets, perform, perform_}
use cinder_userspace.Sock.{minus_one}

-- The bytes of sun_path that hold a path; the last one holds the 0 byte.
abbrev pub sun_path_length : ℕ
sun_path_length = 107

module _ {H L : Type 0} (env : Env H L) where
  -- The error path of create_listening_ud_sock behind a call on the new socket.
  abandon : (socket_fd : ℤ) → Cmd H L (ℤ × Option ℤ)
  abandon socket_fd = do
    ret ← gets (λ w. env.errno w.trace)
    perform_ env (close socket_fd)
    pure (ret, none)

  -- The error, and the socket that is stored at `sock_loc`.
  unfoldable pub create_listening_ud_sock :
      (path : Option (List ℕ)) (backlog : ℕ) (sock_loc : Ptr) → Cmd H L (ℤ × Option ℤ)
  unfolding abandon
  create_listening_ud_sock none backlog sock_loc = pure (einval, none)
  create_listening_ud_sock (some path) backlog sock_loc =
      if sock_loc == null then pure (einval, none) else do
        socket_fd ← perform env socket
        if eq_ℤ socket_fd minus_one
            then (do ret ← gets (λ w. env.errno w.trace); pure (ret, none))
            else do
              perform_ env (unlink path)
              err ← perform env (bind socket_fd (take sun_path_length path))
              if nonzero err then abandon socket_fd else do
                err ← perform env (listen socket_fd backlog)
                if nonzero err then abandon socket_fd else pure (pos 0, some socket_fd)

  unfoldable pub dispose_listening_ud_sock : (socket_fd : ℤ) (path : Option (List ℕ)) → Cmd H L ℤ
  dispose_listening_ud_sock socket_fd none = pure einval
  dispose_listening_ud_sock socket_fd (some path) =
      if eq_ℤ socket_fd minus_one
      then pure einval
      else do perform_ env (close socket_fd); perform_ env (unlink path); pure (pos 0)

  -- The error, and what is stored at `pid`, `uid` and `gid`.
  unfoldable pub get_peer_id : (s : ℤ) (pid uid gid : Ptr) → Cmd H L (ℤ × Option (ℤ × ℕ × ℕ))
  get_peer_id s pid uid gid =
      if eq_ℤ s minus_one || (uid == null) || (gid == null) || (pid == null)
      then pure (einval, none)
      else do
        credentials ← gets (λ w. env.peer w.trace s)
        err ← perform env (getsockopt_peercred s)
        if nonzero err
            then (do ret ← gets (λ w. env.errno w.trace); pure (ret, none))
            else pure (pos 0, some credentials)
