-- ===== src/Console/Arrival.antt =====
-- From the prompts of CinderUserspace/PAController/client.c over the socket to what
-- CinderUserspace/PowerArbiter/client.c reads of the query.
use cinder_userspace.Base.{
  ℕ, ◌^◌, ◌<◌, ◌≡◌, ◌∙◌, ap, Bool, true, false, List, ◌++◌, some, arith, length,
}
use cinder_userspace.Base.Int.{ℤ, eq_ℤ, is_zero}
use cinder_userspace.Os.{Trace, Env}
use cinder_userspace.Os.Ledger.{delivered}
use cinder_userspace.Store.{World, Run, Returns, Returns-mono}
use cinder_userspace.Sock.{minus_one}
use cinder_userspace.Context.{pa_set_tap_params, pa_add_uid_params}
use cinder_userspace.Wire.{
  bytes, number, request_size, params_query_size, ParamsQuery, read_set_query, read_add_query,
  write_set_query, write_add_query,
}
use cinder_userspace.Wire.RoundTrip.{queries_round_trip, length-bytes, number-bytes}
use cinder_userspace.Console.Prompts.{ask_params}
use cinder_userspace.Console.Typed.{typed_params, params_of, kind_of, ask_params-typed}
use cinder_userspace.Console.Requests.{handle_add_reserve_mapping, handle_set_reserve_mapping_data}
use cinder_userspace.Console.Requested.{Requested, handlers-Requested}

module _ {H L : Type 0} (sock : ℤ) (uid value : ℕ) (proportional : Bool) (w : World H L) where
  -- A request of this type and a query that is read as these parameters were sent.
  pub record Arrives (request_type : ℕ) (read : List ℕ → ParamsQuery) (w' : World H L)
      : Type 0 where
    pub request : List ℕ
    pub query : List ℕ
    pub sent : delivered sock w'.trace ≡ delivered sock w.trace ++ (request ++ query)
    pub request_length : length request ≡ request_size
    pub query_length : length query ≡ params_query_size
    pub request_read : number request ≡ request_type
    pub query_read : read query ≡ params_of uid value proportional

module _ {H L : Type 0} (env : Env H L) (errno_set : (t : Trace) → is_zero (env.errno t) ≡ false)
    (sock : ℤ) (open_sock : eq_ℤ sock minus_one ≡ false) (uid value : ℕ) (proportional : Bool)
    (rest : List ℕ) (w : World H L) (uid_small : uid < 2 ^ 31) (value_small : value < 2 ^ 31) where
  typed : List ℕ
  typed = typed_params uid value proportional rest

  asked : ask_params typed ≡ (some (params_of uid value proportional), rest)
  unfolding typed
  asked = ask_params-typed uid value proportional rest uid_small value_small

  Answered :
      (request_type : ℕ) (read : List ℕ → ParamsQuery) (a : ℤ × List ℕ) (w' : World H L) → Type 0
  Answered request_type read a w' =
      (a.1 ≡ rest)
      × (is_zero (a.0) ≡ true → Arrives sock uid value proportional w request_type read w')

  Requested-Answered :
      (request_type : ℕ) (read : List ℕ → ParamsQuery) (write : ParamsQuery → List ℕ)
      (run : Run H L (ℤ × List ℕ))
      → request_type < 256 ^ 4
      → length (write (params_of uid value proportional)) ≡ params_query_size
      → read (write (params_of uid value proportional)) ≡ params_of uid value proportional
      → Returns (Requested env sock ask_params (λ q. bytes 4 request_type ++ write q) typed w) run
      → Returns (Answered request_type read) run
  unfolding Answered
  Requested-Answered request_type read write run small l e done =
      Returns-mono (Requested env sock ask_params (λ q. bytes 4 request_type ++ write q) typed w)
        (Answered request_type read) run done
        (λ a w' d. (
          d.rest ∙ ap (λ r. r.1) asked,
          λ z. record {
            request = bytes 4 request_type;
            query = write (params_of uid value proportional);
            sent = d.sent _ (ap (λ r. r.0) asked) z;
            request_length = length-bytes 4 request_type;
            query_length = l;
            request_read = number-bytes 4 request_type small;
            query_read = e;
          },
        ))

  -- The user types a uid and a value below 2^31 in decimal digits, each on a line, and "c" or "p",
  -- for a request to add or to set. With an open socket and calls that set errno where they fail,
  -- the handler ends and leaves the rest of the input. Where it returns 0, it has sent a request of
  -- four bytes and a query of 24, which the daemon reads as that request, uid, value and type.
  pub typed_params_arrive :
      Returns
        (λ a w'.
          (a.1 ≡ rest)
          × (is_zero (a.0) ≡ true
              → Arrives sock uid value proportional w pa_add_uid_params read_add_query w'))
        (handle_add_reserve_mapping env sock (typed_params uid value proportional rest) w)
      × Returns
          (λ a w'.
            (a.1 ≡ rest)
            × (is_zero (a.0) ≡ true
                → Arrives sock uid value proportional w pa_set_tap_params read_set_query w'))
          (handle_set_reserve_mapping_data env sock (typed_params uid value proportional rest) w)
  unfolding Answered typed
  typed_params_arrive =
      let handlers = handlers-Requested env errno_set sock open_sock typed w in
      let trip =
        queries_round_trip (params_of uid value proportional) (omega arith) kind_small
          (omega arith) in
      (
        Requested-Answered pa_add_uid_params read_add_query write_add_query _ (omega arith) trip.3
            trip.1 handlers.0,
        Requested-Answered pa_set_tap_params read_set_query write_set_query _ (omega arith) trip.2
            trip.0 handlers.3,
      )
    where
      kind_small : kind_of proportional < 2 ^ 64
      kind_small = ground arith
