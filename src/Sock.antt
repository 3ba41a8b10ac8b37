-- ===== src/Sock.antt =====
-- streamsock_read and streamsock_send, which CinderUserspace/PowerArbiter/sock.c and
-- CinderUserspace/PAController/sock.c hold in the same words. A loop runs on fuel, one round for
-- each byte to move and one for the last test.
pub mod Calls
pub mod Read
pub mod Count
pub mod Arrived
pub mod Send
pub mod Listen
use cinder_userspace.Base.{
  ℕ, zero, suc, ◌+◌, ◌-◌, ◌%◌, ◌^◌, ◌||◌, List, [], ◌++◌, Option, none, some, ◌==◌, ltb,
  if◌then◌else◌, take, drop,
}
use cinder_userspace.Base.Int.{ℤ, pos, negsuc, is_zero, eq_ℤ, einval}
use cinder_userspace.Base.Text.{word_64}
use cinder_userspace.Os.{Ptr, null, recv, send, Env}
use cinder_userspace.Store.{out_of_fuel, Cmd, pure, ◌>>=◌, gets, perform}

-- -1, as `recv`, `send` and a closed socket have it.
abbrev pub minus_one : ℤ
minus_one = negsuc 0

-- The error, what is stored at `num_bytes_read`, and the bytes in the buffer.
pub record Received : Type 0 where
  pub err : ℤ
  pub num_bytes_read : Option ℕ
  pub buf : List ℕ

module _ {H L : Type 0} (env : Env H L) where
  read_loop : (fuel : ℕ) (sock : ℤ) (to_read rcvd remaining : ℕ) (buf : List ℕ) → Cmd H L Received
  read_loop zero sock to_read rcvd remaining buf = λ w. out_of_fuel
  read_loop (suc fuel) sock to_read rcvd remaining buf =
      let round = (do
        bytes ← gets (λ w. env.received w.trace sock remaining)
        recv_ret ← perform env (recv sock remaining)
        if eq_ℤ recv_ret minus_one
            then (do
              errno ← gets (λ w. env.errno w.trace)
              pure (record { err = errno; num_bytes_read = none; buf = buf }))
            else if is_zero recv_ret
            then pure (record { err = pos 0; num_bytes_read = some rcvd; buf = buf })
            else read_loop fuel sock to_read ((rcvd + word_64 recv_ret) % 2 ^ 64)
                ((remaining + 2 ^ 64 - word_64 recv_ret) % 2 ^ 64) (buf ++ bytes)) in
      if ltb rcvd to_read
      then round
      else pure (record { err = pos 0; num_bytes_read = some rcvd; buf = buf })

  unfoldable pub streamsock_read :
      (sock : ℤ) (buf : Ptr) (bufsiz to_read : ℕ) (num_bytes_read : Ptr) → Cmd H L Received
  unfolding read_loop
  streamsock_read sock buf bufsiz to_read num_bytes_read =
      if eq_ℤ sock minus_one || (buf == null) || ltb bufsiz to_read || (num_bytes_read == null)
      then pure (record { err = einval; num_bytes_read = none; buf = [] })
      else read_loop (to_read + 1) sock to_read 0 to_read []

  -- The error, and what is stored at `num_bytes_sent`.
  send_loop :
      (fuel : ℕ) (sock : ℤ) (buf : List ℕ) (to_send sent remaining : ℕ) → Cmd H L (ℤ × Option ℕ)
  send_loop zero sock buf to_send sent remaining = λ w. out_of_fuel
  send_loop (suc fuel) sock buf to_send sent remaining =
      let round = (do
        send_ret ← perform env (send sock (take remaining (drop sent buf)))
        if eq_ℤ send_ret minus_one
            then (do errno ← gets (λ w. env.errno w.trace); pure (errno, none))
            else send_loop fuel sock buf to_send ((sent + word_64 send_ret) % 2 ^ 64)
                ((remaining + 2 ^ 64 - word_64 send_ret) % 2 ^ 64)) in
      if ltb sent to_send then round else pure (pos 0, some sent)

  -- `buf` is the content of the buffer, of which `to_send` bytes are sent.
  unfoldable pub streamsock_send :
      (sock : ℤ) (buf_address : Ptr) (buf : List ℕ) (to_send : ℕ) (num_bytes_sent : Ptr)
      → Cmd H L (ℤ × Option ℕ)
  unfolding send_loop
  streamsock_send sock buf_address buf to_send num_bytes_sent =
      if eq_ℤ sock minus_one || (buf_address == null) || (num_bytes_sent == null)
      then pure (einval, none)
      else send_loop (to_send + 1) sock buf to_send 0 to_send
