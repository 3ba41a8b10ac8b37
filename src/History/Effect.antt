-- ===== src/History/Effect.antt =====
-- What one request or pass does, in one statement for all of them.
use cinder_userspace.Base.{
  ℕ, ◌≡◌, refl, ap, ◌∙◌, Bool, true, false, Option, none, some, arith, ◌==◌, Option-cases,
  Bool-cases, inl, inr, if◌then◌else◌,
}
use cinder_userspace.Base.Int.{ℤ, pos, is_pos}
use cinder_userspace.Os.{null, Mutex, Trace, Env, dbase_lock}
use cinder_userspace.Store.{
  UidReserveData, World, Run, pure, Returns, Returns-bind, Returns-and, Returns-all, Returns-mono,
}
use cinder_userspace.Record.{local}
use cinder_userspace.Context.{PaContext}
use cinder_userspace.Dbase.{clear_unused}
use cinder_userspace.Dbase.Invariant.{Inv, heap_null, is_some}
use cinder_userspace.Dbase.View.{entry, params_of}
use cinder_userspace.Dbase.Remove.{Removed, remove_entry-Removed}
use cinder_userspace.Dbase.Clear.{Passed, clear_unused-Passed}
use cinder_userspace.Dbase.Clear.Passes.{clear_unused-Inv}
use cinder_userspace.Controller.{
  stat_reserve, get_tap_params, set_tap_params, add_reserve_params_for_uid,
  remove_reserve_params_for_uid,
}
use cinder_userspace.Controller.Stat.{stat_reserve-params}
use cinder_userspace.Controller.Get.{Got, get_tap_params-Got}
use cinder_userspace.Controller.Set.{set_tap_params-map}
use cinder_userspace.Controller.Add.{Accepted, add-Accepted}
use cinder_userspace.Controller.Safe.{
  Safe, get_tap_params-Safe, set_tap_params-Safe, stat_reserve-Safe, add-Safe, remove-Safe,
}
use cinder_userspace.History.{
  Request, stat, get, remove, set, add, pass, run_request, applied, removes,
}

-- The reserve that an entry holds.
abbrev pub grant : Option UidReserveData → Option ℤ
grant none = none
grant (some d) = if d.reserve_created then some d.reserve_id else none

abbrev pub has_grant : Option UidReserveData → Bool
has_grant none = false
has_grant (some d) = d.reserve_created

grant_present : (e : Option UidReserveData) → has_grant e ≡ true → is_some e ≡ true
grant_present none h = h
grant_present (some d) h = refl

module _ {H L : Type 0} (env : Env H L) where
  open env.hash use {find}

  pub record Effect (r : Request) (w : World H L) (err : ℤ) (w' : World H L) : Type 0 where
    pub safe : Safe env w'
    pub params :
        (k : ℕ) → params_of (entry env w' k) ≡ applied r err (λ j. params_of (entry env w j)) k
    pub kept :
        (k : ℕ)
        → has_grant (entry env w k) ≡ true
        → removes r err k ≡ false
        → grant (entry env w' k) ≡ grant (entry env w k)

  -- An operation that changes no entry.
  same-Effect :
      (r : Request) (w : World H L) (err : ℤ) (w' : World H L)
      → ((k : ℕ) → applied r err (λ j. params_of (entry env w j)) k ≡ params_of (entry env w k))
      → Safe env w'
      → ((k : ℕ) → entry env w' k ≡ entry env w k)
      → Effect r w err w'
  same-Effect r w err w' idle s same = record {
    safe = s;
    params = λ k. rw (same k, idle k);
    kept = λ k g z. rw (same k);
  }

  abbrev KeptAt : (k : ℕ) (w w' : World H L) → Type 0
  KeptAt k w w' = has_grant (entry env w k) ≡ true → grant (entry env w' k) ≡ grant (entry env w k)

  abbrev SameParams : (w w' : World H L) → Type 0
  SameParams w w' = (k : ℕ) → params_of (entry env w' k) ≡ params_of (entry env w k)

  abbrev Kept : (w w' : World H L) → Type 0
  Kept w w' = (k : ℕ) → KeptAt k w w'

  Returns-when :
      {A : Type 0} (b : Bool) (P Q : A → World H L → Type 0) (run : Run H L A)
      → Returns Q run
      → (b ≡ true → Returns P run)
      → Returns (λ a w'. b ≡ true → P a w') run
  Returns-when true P Q run other h = Returns-mono P _ run (h refl) (λ a w' p e. p)
  Returns-when false P Q run other h = Returns-mono Q _ run other (λ a w' q e. cc)

  module _ (c : PaContext) (uid : ℕ) (task : ℤ) (remote : ℕ) (w : World H L)
      (db : (c.dbase == null) ≡ false) (s : Safe env w) where
    stat_reserve-grant :
        (k : ℕ)
        → has_grant (entry env w k) ≡ true
        → Returns
            (λ a w'. grant (entry env w' k) ≡ grant (entry env w k))
            (stat_reserve env (some c) uid task remote local local w)
    unfolding stat_reserve
    stat_reserve-grant k held = elim (Option-cases (find w.active uid)) [
      | inl e ↦ ground arith
      | inr (p, e) ↦ elim (Option-cases (w.heap p)) [
        | inl out ↦ absurd (ground (arith, s.inv.keyed uid p e))
        | inr (r, here) ↦ elim (Option-cases (find w.active k)) [
          | inl f ↦ ground (arith, heap_null env w s.inv)
          | inr (q, f) ↦ elim (Bool-cases (r.reserve_data.reserve_created)) [
            | inl old ↦ ground (arith, heap_null env w s.inv)
            | inr new ↦ ground (arith, heap_null env w s.inv)
          ]
        ]
      ]
    ]

    stat-Effect :
        Returns (Effect (stat uid task remote) w) (run_request env c (stat uid task remote) w)
    unfolding run_request
    stat-Effect =
        let run = stat_reserve env (some c) uid task remote local local w in
        let safe = stat_reserve-Safe env c uid task remote w db s local local in
        Returns-bind (Effect (stat uid task remote) w)
          (λ a w'. Safe env w' × (SameParams w w' × Kept w w')) run (λ a. pure (a.0))
          (Returns-and (λ a. Safe env) (λ a w'. SameParams w w' × Kept w w') run safe
            (Returns-and (λ a. SameParams w) (λ a. Kept w) run
              (Returns-all 0 (λ k a w'. params_of (entry env w' k) ≡ params_of (entry env w k)) run
                (stat_reserve-params env c uid task remote w db s.inv local local))
              (Returns-all 0 (λ k a. KeptAt k w) run
                (λ k.
                  Returns-when (has_grant (entry env w k))
                    (λ a w'. grant (entry env w' k) ≡ grant (entry env w k)) (λ a. Safe env) run
                    safe (stat_reserve-grant k)))))
          (λ a w' (s', (p, g)). record { safe = s'; params = p; kept = λ k h z. g k h })

    get-Effect :
        Returns (Effect (get uid task remote) w) (run_request env c (get uid task remote) w)
    unfolding run_request
    get-Effect =
        let run = get_tap_params env (some c) uid task remote local local w in
        Returns-bind (Effect (get uid task remote) w) (λ a w'. Safe env w' × Got env uid w a w') run
          (λ a. pure (a.0))
          (Returns-and (λ a. Safe env) (Got env uid w) run
            (get_tap_params-Safe env c uid task remote w db s local local)
            (get_tap_params-Got env c uid task remote local local w db refl refl s.inv))
          (λ a w' (s', g).
            same-Effect (get uid task remote) w (a.0) w' (λ k. refl) s'
              (λ k. rw (g.heap, g.active)))

    set-Effect :
        (tap_type : ℕ) (tap_value : ℤ)
        → Returns
            (Effect (set uid task remote tap_type tap_value) w)
            (run_request env c (set uid task remote tap_type tap_value) w)
    unfolding run_request
    set-Effect tap_type tap_value =
        let run = set_tap_params env (some c) uid task remote tap_type tap_value local w in
        Returns-bind (Effect (set uid task remote tap_type tap_value) w) _ run (λ a. pure (a.0))
          (Returns-and (λ a. Safe env) _ run
            (set_tap_params-Safe env c uid task remote w db s tap_type tap_value local)
            (Returns-all 0 _ run
              (set_tap_params-map env c uid task remote tap_type tap_value local w db refl s.inv)))
          (λ a w' (s', m). record {
            safe = s';
            params = λ k. ground (arith, m k);
            kept = λ k g z. ground (arith, m k);
          })

    add-Effect :
        (tap_type : ℕ) (tap_value : ℤ)
        → Returns
            (Effect (add uid task remote tap_type tap_value) w)
            (run_request env c (add uid task remote tap_type tap_value) w)
    unfolding run_request
    add-Effect tap_type tap_value =
        let run =
          add_reserve_params_for_uid env (some c) uid task remote tap_type tap_value local w in
        Returns-bind (Effect (add uid task remote tap_type tap_value) w) _ run (λ a. pure (a.0))
          (Returns-and (λ a. Safe env) (Accepted env uid tap_type tap_value w) run
            (add-Safe env c uid task remote w db s tap_type tap_value local)
            (add-Accepted env c uid task remote tap_type tap_value w db s.inv local))
          (λ a w' (s', d). record {
            safe = s';
            params = λ k. d.params k;
            kept = λ k g z. ap grant (d.kept k (grant_present (entry env w k) g));
          })

    remove-Effect :
        Returns (Effect (remove uid task remote) w) (run_request env c (remove uid task remote) w)
    unfolding run_request remove_reserve_params_for_uid
    remove-Effect =
        let run = remove_reserve_params_for_uid env (some c) uid task remote w in
        Returns-mono (λ err w'. Safe env w' × Removed env uid w err w')
          (Effect (remove uid task remote) w) run
          (Returns-and (λ a. Safe env) (Removed env uid w) run
            (remove-Safe env c uid task remote w db s)
            (remove_entry-Removed env c.dbase uid w db s.inv))
          (λ err w' (s', d). record {
            safe = s';
            params = λ k. ground (arith, d.map k);
            kept = λ k g z. ground (arith, d.map k);
          })

  abbrev PassedBy : Mutex → (w w' : World H L) → Type 0
  PassedBy m w w' = Passed env (pos 0) m 0 w w'

  -- A pass of the reaper, where a reserve that the kernel knows has a user.
  module _ (used : (t : Trace) (id : ℤ) → is_pos (env.num_users t id) ≡ true) (c : PaContext)
      (w : World H L) (db : (c.dbase == null) ≡ false) (s : Safe env w) where
    pass-Effect : Returns (Effect pass w) (run_request env c pass w)
    unfolding run_request
    pass-Effect =
        let run = clear_unused env c.dbase local w in
        let passed = (λ (m : Mutex).
          clear_unused-Passed env used (pos 0) m 0 c.dbase local w db refl (s.free m) s.inv) in
        Returns-bind (Effect pass w) (λ a w'. Inv env w' × ((m : Mutex) → PassedBy m w w')) run
          (λ a. pure (a.0))
          (Returns-and (λ a. Inv env) (λ a w'. (m : Mutex) → PassedBy m w w') run
            (clear_unused-Inv env used c.dbase local w db refl (s.free dbase_lock) s.inv)
            (Returns-all dbase_lock (λ m a w'. PassedBy m w w') run
              (λ m. Returns-mono _ (λ a w'. PassedBy m w w') run (passed m) (λ a w' p. p.0))))
          (λ a w' (v, p).
            same-Effect pass w (a.0) w' (λ k. refl)
              (record { inv = v; free = λ m. (p m).lock ∙ s.free m })
              (λ k. rw ((p dbase_lock).heap, (p dbase_lock).active)))

    -- Every request, and a pass of the reaper, ends with no fault.
    pub run_request-Effect : (r : Request) → Returns (Effect r w) (run_request env c r w)
    run_request-Effect (stat uid task remote) = stat-Effect c uid task remote w db s
    run_request-Effect (get uid task remote) = get-Effect c uid task remote w db s
    run_request-Effect (remove uid task remote) = remove-Effect c uid task remote w db s
    run_request-Effect (set uid task remote tap_type tap_value) =
        set-Effect c uid task remote w db s tap_type tap_value
    run_request-Effect (add uid task remote tap_type tap_value) =
        add-Effect c uid task remote w db s tap_type tap_value
    run_request-Effect pass = pass-Effect
