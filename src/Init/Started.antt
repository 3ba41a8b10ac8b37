-- ===== src/Init/Started.antt =====
-- What powerArbiterInitialize of CinderUserspace/PowerArbiter/init.c leaves.
use cinder_userspace.Base.{
  Bool, not, ◌&&◌, ◌≡◌, refl, true, false, List, [], ◌∷◌, Option, none, some, arith, ◌==◌, mem,
  Bool-cases, inl, inr,
}
use cinder_userspace.Base.Int.{eq_ℤ, pos_part, nonzero, ℤ, is_zero}
use cinder_userspace.Os.{
  malloc, mutex_init, context_lock, Ptr, sem_destroy, sem_init, reaper_thread_exited, null, Trace,
  Env,
}
use cinder_userspace.Os.Ledger.{opened}
use cinder_userspace.Store.{
  Returns-mono, World, Returns, Returns-bind, Returns-and, if-Returns, logged,
}
use cinder_userspace.Context.{PaContext}
use cinder_userspace.Sock.{minus_one}
use cinder_userspace.Sock.Listen.Leaks.{
  with_socket, Agrees, Listening, create_listening_ud_sock-Listening,
  create_listening_ud_sock-error,
}
use cinder_userspace.Init.{
  power_arbiter_initialize, initialize_semaphore, free_db, free_ctx, free_mutex,
  power_arbiter_sockpath, default_listen_backlog,
}
use cinder_userspace.Sock.Listen.{create_listening_ud_sock}
use cinder_userspace.Record.{local, stored}
use cinder_userspace.Dbase.{create_empty}
use cinder_userspace.Dbase.Invariant.{is_some}

-- The socket of a context.
abbrev pub socket_of : Option PaContext → Option ℤ
socket_of none = none
socket_of (some c) = some c.listen_sock

-- A context has a database, a listening socket and no user.
abbrev pub fit_context : Option PaContext → Bool
fit_context none = true
fit_context (some c) =
    not (c.dbase == null) && (is_zero c.num_users && not (eq_ℤ c.listen_sock minus_one))

module _ {H L : Type 0} (env : Env H L) where
  pub no_items : (xs : List Ptr) → ((p : Ptr) → mem p xs ≡ false) → xs ≡ []
  no_items [] out = refl
  no_items (x ∷ xs) out = absurd (ground (arith, out x))

  pub null_empty : env.hash.is_null env.hash.empty ≡ true
  null_empty = env.hash.items-is_null env.hash.empty env.hash.empty-well_formed (
      no_items (env.hash.items env.hash.empty) (λ p.
        elim (Bool-cases (mem p (env.hash.items env.hash.empty))) [
          | inr e ↦ e
          | inl e ↦
              let (k, f) =
                env.hash.find_of_mem_items env.hash.empty p env.hash.empty-well_formed e in
              ground (arith, env.hash.find-empty k)
        ]))

  pub none_dead : env.list.is_empty env.list.init ≡ true
  none_dead = env.list.entries-is_empty env.list.init env.list.entries-init

  -- What a start that ends with `err` and `out` leaves.
  pub record Started (w : World H L) (a : ℤ × Option PaContext) (w' : World H L) : Type 0 where
    pub sockets : opened w'.trace ≡ with_socket (socket_of (a.1)) (opened w.trace)
    pub result : is_zero (a.0) ≡ is_some (a.1)
    pub fit : fit_context (a.1) ≡ true

  module _ (errno_set : (t : Trace) → is_zero (env.errno t) ≡ false) where
    -- The label `free_db`, where the database is empty.
    free_db-Started :
        (progctx dbase : Ptr) (err : ℤ) (w v : World H L)
        → (dbase == null) ≡ false
        → is_zero err ≡ false
        → opened v.trace ≡ opened w.trace
        → env.hash.is_null v.active ≡ true
        → env.list.is_empty v.dead_list ≡ true
        → Returns (Started w) (free_db env progctx dbase err v)
    unfolding free_db opened
    free_db-Started progctx dbase err w v g bad same no_active no_dead = ground arith

    initialize_semaphore-Started :
        (progctx dbase : Ptr) (w : World H L)
        → (dbase == null) ≡ false
        → env.hash.is_null w.active ≡ true
        → env.list.is_empty w.dead_list ≡ true
        → Returns (Started w) (initialize_semaphore env progctx dbase w)
    unfolding initialize_semaphore opened
    initialize_semaphore-Started progctx dbase w g no_active no_dead =
        if-Returns (Started w) (nonzero err) _ _ ready
          (λ failed.
            free_db-Started progctx dbase _ w ready g (errno_set ready.trace) refl no_active
              no_dead)
          (λ made.
            Returns-bind (Started w)
              (λ a w'. Listening env ready a w' × (is_zero (a.0) ≡ is_some (a.1)))
              (create_listening_ud_sock env (some power_arbiter_sockpath) default_listen_backlog
                local ready)
              _
              (Returns-and (Listening env ready) (Agrees env) _
                (create_listening_ud_sock-Listening env (some power_arbiter_sockpath)
                  default_listen_backlog local ready)
                (create_listening_ud_sock-error env errno_set (some power_arbiter_sockpath)
                  default_listen_backlog local ready))
              (λ a w' (held, agrees).
                if-Returns (Started w) (nonzero (a.0)) _ _ w'
                  (λ bad.
                    free_db-Started progctx dbase (a.0) w
                      (logged w' (sem_destroy reaper_thread_exited)
                        (env.result w'.trace (sem_destroy reaper_thread_exited)))
                      g (ground (arith, bad)) (ground (arith, held.sockets, agrees, bad))
                      (rw held.active no_active) (rw held.dead_list no_dead))
                  (λ good. record {
                    sockets = ground (arith, held.sockets, agrees, good);
                    result = refl;
                    fit = ground (arith, held.valid, agrees, good, g);
                  })))
      where
        err : ℤ
        err = env.result w.trace (sem_init reaper_thread_exited)

        ready : World H L
        ready = logged w (sem_init reaper_thread_exited) err

  -- What reserveDataDBCreateEmpty leaves.
  record Fresh (w : World H L) (a : ℤ × Option Ptr) (w' : World H L) : Type 0 where
    pub sockets : opened w'.trace ≡ opened w.trace
    pub no_active : is_zero (a.0) ≡ true → env.hash.is_null w'.active ≡ true
    pub no_dead : is_zero (a.0) ≡ true → env.list.is_empty w'.dead_list ≡ true
    pub address : is_zero (a.0) ≡ true → (stored (a.1) null == null) ≡ false

  create_empty-Fresh : (w : World H L) → Returns (Fresh w) (create_empty env local w)
  unfolding create_empty opened
  create_empty-Fresh w = ground (arith, null_empty, none_dead)

  -- Where a failing call sets errno, powerArbiterInitialize ends, on every path and with no failed
  -- assertion. It returns 0 exactly if it stores a context, whose listening socket is then the one
  -- that is open more; on an error no socket is left open.
  pub power_arbiter_initialize-Started :
      (errno_set : (t : Trace) → is_zero (env.errno t) ≡ false) (loc : Ptr) (w : World H L)
      → Returns (Started w) (power_arbiter_initialize env loc w)
  unfolding power_arbiter_initialize free_ctx free_mutex opened
  power_arbiter_initialize-Started errno_set loc w =
      if-Returns (Started w) (loc == null) _ _ w
        (λ missing. record { sockets = refl; result = refl; fit = refl })
        (λ given.
          if-Returns (Started w) (pos_part address == null) _ _ allocated_world
            (λ full. record { sockets = refl; result = refl; fit = refl })
            (λ got.
              if-Returns (Started w) (nonzero err) _ _ ready
                (λ bad. record { sockets = refl; result = ground (arith, bad); fit = refl })
                (λ made.
                  Returns-bind (Started w) (Fresh ready) (create_empty env local ready) _
                    (create_empty-Fresh ready)
                    (λ a w' fresh.
                      if-Returns (Started w) (nonzero (a.0)) _ _ w'
                        (λ bad. record {
                          sockets = fresh.sockets;
                          result = ground (arith, bad);
                          fit = refl;
                        })
                        (λ good.
                          let zero_err : is_zero (a.0) ≡ true = ground (arith, good) in
                          Returns-mono (Started w') (Started w) _
                            (initialize_semaphore-Started errno_set (pos_part address)
                              (stored (a.1) null) w' (fresh.address zero_err)
                              (fresh.no_active zero_err) (fresh.no_dead zero_err))
                            (λ b w'' s. record {
                              sockets = rw fresh.sockets at s.sockets;
                              result = s.result;
                              fit = s.fit;
                            }))))))
    where
      address : ℤ
      address = env.result w.trace malloc

      allocated_world : World H L
      allocated_world = logged w malloc address

      err : ℤ
      err = env.result allocated_world.trace (mutex_init context_lock)

      ready : World H L
      ready = logged allocated_world (mutex_init context_lock) err
