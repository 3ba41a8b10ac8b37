-- ===== src/Client/Session.antt =====
-- The loop of a session in CinderUserspace/PowerArbiter/client.c.
use cinder_userspace.Base.{
  ap, ◌∙◌, subst, ℕ, zero, suc, ◌+◌, ◌≡◌, ◌≤◌, ◌<◌, refl, true, false, List, some, arith, ◌==◌, leb,
  Bool-cases, inl, inr, if◌then◌else◌,
}
use cinder_userspace.Base.Int.{ℤ, pos, is_zero, nonzero, eq_ℤ, einval}
use cinder_userspace.Os.{Ptr, null, Trace, recv, close, free, Env}
use cinder_userspace.Os.Ledger.{bytes_received, opened, erase}
use cinder_userspace.Store.{
  World, Run, Returns, Returns-bind, Returns-and, Returns-mono, if-Returns, pure, ok, perform_,
  logged,
}
use cinder_userspace.Context.{
  PaContext, pa_goodbye, pa_stat_reserve, pa_get_tap_params, pa_set_tap_params, pa_add_uid_params,
  pa_remove_uid_params,
}
use cinder_userspace.Record.{local}
use cinder_userspace.Sock.{minus_one, streamsock_read}
use cinder_userspace.Sock.Count.{streamsock_read-closed}
use cinder_userspace.Wire.{field, request_size}
use cinder_userspace.Controller.Safe.{Safe}
use cinder_userspace.Client.Safe.{accepted_client, read_message-Safe, handle_request-Safe}
use cinder_userspace.Client.Answers.{
  Heard, read_message-Heard, Answered, handle_stat_reserve-Answered, handle_get_tap_params-Answered,
  handle_set_tap_params-Answered, handle_add_params_for_uid-Answered,
  handle_remove_params_for_uid-Answered,
}
use cinder_userspace.Client.{read_message, handle_request, session_loop, do_handle_client}

-- The response of each request has its own size.
abbrev pub response_size : (request_type : ℕ) → ℕ
response_size n = if n == pa_stat_reserve then 12 else if n == pa_get_tap_params then 24 else 4

-- The invariant holds, no lock is held, and the sockets are as they were.
abbrev Ongoing : {H L : Type 0} → Env H L → (w w' : World H L) → Type 0
Ongoing env w w' = Safe env w' × (opened w'.trace ≡ opened w.trace)

-- At the end of a session the socket is closed, and then the context freed.
pub record Left {H L : Type 0} (env : Env H L) (sock : ℤ) (address : Ptr) (w w' : World H L)
    : Type 0 where
  before : World H L
  safe : Safe env before
  then_left :
      perform_ env
        (free address)
        (logged before (close sock) (env.result before.trace (close sock)))
      ≡ ok tt w'
  closed : opened w'.trace ≡ erase sock (opened w.trace)

module _ {H L : Type 0} (env : Env H L) (errno_set : (t : Trace) → is_zero (env.errno t) ≡ false)
    (c : PaContext) (sock : ℤ) (uid gid : ℕ) (pid : ℤ) (db : (c.dbase == null) ≡ false)
    (open_sock : eq_ℤ sock minus_one ≡ false) where
  -- A request that returns 0 was answered once: given an open socket, a context that has a
  -- database, calls that set errno where they fail, the invariant and no lock held, exactly one
  -- response was sent, whole and of the size that the request's type has.
  pub handle_request-Answered :
      (request_type : ℕ) (w : World H L)
      → Safe env w
      → Returns
          (Answered env errno_set sock open_sock (response_size request_type) w)
          (handle_request env (accepted_client c sock uid gid pid) request_type w)
  unfolding handle_request
  handle_request-Answered n w s =
      if-Returns (Answers n w) (n == pa_stat_reserve) _ _ w
        (λ e.
          sized n w 12 _ (rw e)
            (handle_stat_reserve-Answered env errno_set sock open_sock c uid gid pid db w s))
        (λ e.
          if-Returns (Answers n w) (n == pa_get_tap_params) _ _ w
            (λ f.
              sized n w 24 _ (rw (e, f))
                (handle_get_tap_params-Answered env errno_set sock open_sock c uid gid pid db w s))
            (λ f.
              let four : 4 ≡ response_size n = rw (e, f) in
              if-Returns (Answers n w) (n == pa_set_tap_params) _ _ w
                (λ g. sized n w 4 _ four (
                  handle_set_tap_params-Answered env errno_set sock open_sock c uid gid pid db w s))
                (λ g.
                  if-Returns (Answers n w) (n == pa_add_uid_params) _ _ w
                    (λ h. sized n w 4 _ four (
                      handle_add_params_for_uid-Answered env errno_set sock open_sock c uid gid pid
                        db w s))
                    (λ h.
                      if-Returns (Answers n w) (n == pa_remove_uid_params) _ (pure einval) w
                        (λ i. sized n w 4 _ four (
                          handle_remove_params_for_uid-Answered env errno_set sock open_sock c uid
                            gid pid db w s))
                        (λ i. refused n w)))))
    where
      Answers : ℕ → World H L → ℤ → World H L → Type 0
      Answers n w = Answered env errno_set sock open_sock (response_size n) w

      sized :
          (n : ℕ) (w : World H L) (size : ℕ) (run : Run H L ℤ)
          → size ≡ response_size n
          → Returns (Answered env errno_set sock open_sock size w) run
          → Returns (Answers n w) run
      sized n w size run e h =
          subst (λ k. Returns (Answered env errno_set sock open_sock k w) run) e h

      refused : (n : ℕ) (w : World H L) → Answers n w einval w
      refused n w = record { hears = omega arith; kept = refl; answers = λ z. cc }

  -- The peer sends `limit` bytes at most: behind them a `recv` finds the connection closed.
  module _ (limit : ℕ)
      (closes : (t : Trace) (n : ℕ)
        → limit ≤ bytes_received t
        → env.result t (recv sock n) ≡ pos 0) where
    read_message-closed :
        (w : World H L)
        → limit ≤ bytes_received w.trace
        → Returns (λ a w'. is_zero (a.0) ≡ false) (read_message env sock request_size w)
    unfolding read_message
    read_message-closed w h =
        Returns-bind (λ a w'. is_zero (a.0) ≡ false)
          (λ r w'. (r.err ≡ pos 0) × (r.num_bytes_read ≡ some 0))
          (streamsock_read env sock local request_size request_size local w) _
          (streamsock_read-closed env sock local request_size request_size local w open_sock refl
            (omega arith) (omega arith) refl (closes w.trace request_size h))
          (λ r w' (fine, nothing). rw (fine, nothing, Returns) refl)

    at_end :
        (w : World H L)
        → Safe env w
        → Returns
            (λ a w'. limit ≤ bytes_received w.trace → is_zero (a.0) ≡ false)
            (read_message env sock request_size w)
    at_end w s = elim (Bool-cases (leb limit (bytes_received w.trace))) [
      | inl end ↦
          Returns-mono (λ a w'. is_zero (a.0) ≡ false) _ _
            (read_message-closed w (ground (arith, end))) (λ a w' bad h. bad)
      | inr more ↦
          Returns-mono (λ a. Safe env) _ _
            (read_message-Safe env sock open_sock request_size w (omega arith) s)
            (λ a w' s' h. absurd (ground (arith, more, h)))
    ]

    -- What the read of a request's number leaves; one that succeeds was not at the end.
    Next : World H L → ℤ × List ℕ → World H L → Type 0
    Next w a w' =
        Ongoing env w w'
        × (is_zero (a.0) ≡ true
            → (bytes_received w.trace < limit)
              × (bytes_received w'.trace ≡ bytes_received w.trace + request_size))

    read_request :
        (w : World H L) → Safe env w → Returns (Next w) (read_message env sock request_size w)
    unfolding Next Heard
    read_request w s =
        Returns-mono
          (λ a w'.
            (Safe env w' × Heard env errno_set sock open_sock request_size w a w')
            × (limit ≤ bytes_received w.trace → is_zero (a.0) ≡ false))
          (Next w) _
          (Returns-and
            (λ a w'. Safe env w' × Heard env errno_set sock open_sock request_size w a w') _ _
            (Returns-and (λ a. Safe env) (Heard env errno_set sock open_sock request_size w) _
              (read_message-Safe env sock open_sock request_size w (omega arith) s)
              (read_message-Heard env errno_set sock open_sock request_size w (omega arith)))
            (at_end w s))
          (λ a w' ((s', h), end). ((s', h.2), λ z. (ground (arith, z, end), h.3 z)))

    one_round :
        (fuel : ℕ) (w : World H L)
        → Safe env w
        → ((u : World H L)
            → Safe env u
            → bytes_received w.trace < limit
            → bytes_received w.trace < bytes_received u.trace
            → Returns
                (λ err. Ongoing env u)
                (session_loop env fuel (accepted_client c sock uid gid pid) u))
        → Returns
            (λ err. Ongoing env w)
            (session_loop env (suc fuel) (accepted_client c sock uid gid pid) w)
    unfolding session_loop Next
    one_round fuel w s again =
        Returns-bind (λ err. Ongoing env w) (Next w) (read_message env sock request_size w) _
          (read_request w s)
          (λ (err, request) w' ((s', kept), next).
            if-Returns (λ err. Ongoing env w) (nonzero err) _ _ w' (λ bad. (s', kept))
              (λ good.
                if-Returns (λ err. Ongoing env w) (field 0 4 request == pa_goodbye) _ _ w'
                  (λ bye. (s', kept))
                  (λ more.
                    let n = field 0 4 request in
                    Returns-bind (λ err. Ongoing env w)
                      (λ ret u.
                        Safe env u
                        × Answered env errno_set sock open_sock (response_size n) w' ret u)
                      (handle_request env (accepted_client c sock uid gid pid) n w') _
                      (Returns-and (λ a. Safe env)
                        (Answered env errno_set sock open_sock (response_size n) w') _
                        (handle_request-Safe env c sock uid gid pid db open_sock w' s' n)
                        (handle_request-Answered n w' s'))
                      (λ ret u (s2, a).
                        if-Returns (λ err. Ongoing env w) (nonzero ret) _ _ u
                          (λ bad. (s2, a.kept ∙ kept))
                          (λ fine.
                            let z = next (ground (arith, good)) in
                            Returns-mono (λ err. Ongoing env u) (λ err. Ongoing env w) _
                              (again u s2 (z.0) (omega (arith, z.1, a.hears)))
                              (λ err v (s3, same). (s3, same ∙ a.kept ∙ kept)))))))

    session_loop-Ongoing :
        (fuel : ℕ) (w : World H L)
        → limit ≤ fuel + bytes_received w.trace
        → Safe env w
        → Returns
            (λ err. Ongoing env w)
            (session_loop env (suc fuel) (accepted_client c sock uid gid pid) w)
    session_loop-Ongoing zero w h s = one_round zero w s (λ u s' below grown. absurd (omega arith))
    session_loop-Ongoing (suc fuel) w h s =
        one_round (suc fuel) w s (λ u s' below grown. session_loop-Ongoing fuel u (omega arith) s')

    -- The thread of a client that sends `limit` bytes at most ends, with no fault, whatever the
    -- client sends and the calls answer: `limit` + 1 rounds of its loop are enough, from a state
    -- whose database satisfies its invariant and in which no lock is held, with an open socket, a
    -- context that has a database, and calls that set errno where they fail. The loop ends in such
    -- a state; behind it the socket is closed, the context of the client is freed, and no more. The
    -- sockets open at the end are those of the start but the client's.
    pub do_handle_client-Left :
        (fuel : ℕ) (address : Ptr) (w : World H L)
        → limit ≤ fuel + bytes_received w.trace
        → Safe env w
        → Returns
            (λ err. Left env sock address w)
            (do_handle_client env (suc fuel) address (accepted_client c sock uid gid pid) w)
    unfolding do_handle_client opened
    do_handle_client-Left fuel address w h s =
        Returns-bind (λ err. Left env sock address w) (λ err. Ongoing env w)
          (session_loop env (suc fuel) (accepted_client c sock uid gid pid) w) _
          (session_loop-Ongoing fuel w h s)
          (λ err u (s', kept). record {
            before = u;
            safe = s';
            then_left = refl;
            closed = ap (erase sock) kept;
          })
