-- ===== src/Init/Vacant.antt =====
-- The database that powerArbiterInitialize of CinderUserspace/PowerArbiter/init.c makes.
use cinder_userspace.Base.{◌≡◌, true, false, some, Option, arith, ◌==◌, ◌∙◌}
use cinder_userspace.Base.Int.{ℤ, pos_part, is_zero, nonzero}
use cinder_userspace.Os.{
  Ptr, null, context_lock, mutex_init, malloc, reaper_thread_exited, sem_init, Env,
}
use cinder_userspace.Store.{World, Returns, Returns-bind, Returns-mono, if-Returns, logged}
use cinder_userspace.Record.{local, stored}
use cinder_userspace.Context.{PaContext}
use cinder_userspace.Dbase.{create_empty}
use cinder_userspace.Sock.Listen.{create_listening_ud_sock}
use cinder_userspace.Sock.Listen.Leaks.{Listening, create_listening_ud_sock-Listening}
use cinder_userspace.Init.{
  power_arbiter_initialize, initialize_semaphore, free_db, free_ctx, free_mutex,
  power_arbiter_sockpath, default_listen_backlog,
}
use cinder_userspace.Init.Started.{null_empty, none_dead}

module _ {H L : Type 0} (env : Env H L) where
  -- The table and the list of the dead hold nothing.
  pub record Vacant (w : World H L) : Type 0 where
    pub table : w.active ≡ env.hash.empty
    pub dead : w.dead_list ≡ env.list.init

  initialize_semaphore-Vacant :
      (progctx dbase : Ptr) (w : World H L)
      → (dbase == null) ≡ false
      → Vacant w
      → Returns (λ a. Vacant) (initialize_semaphore env progctx dbase w)
  unfolding initialize_semaphore free_db
  initialize_semaphore-Vacant progctx dbase w g v =
      let no_active : env.hash.is_null w.active ≡ true = rw v.table (null_empty env) in
      let no_dead : env.list.is_empty w.dead_list ≡ true = rw v.dead (none_dead env) in
      if-Returns (λ a. Vacant) (nonzero (env.result w.trace (sem_init reaper_thread_exited))) _ _
        ready (λ failed. ground (arith, g, no_active, no_dead, v))
        (λ made.
          Returns-bind (λ a. Vacant) (Listening env ready)
            (create_listening_ud_sock env (some power_arbiter_sockpath) default_listen_backlog local
              ready)
            _
            (create_listening_ud_sock-Listening env (some power_arbiter_sockpath)
              default_listen_backlog local ready)
            (λ a w' held.
              let no_active' : env.hash.is_null w'.active ≡ true = rw held.active no_active in
              let no_dead' : env.list.is_empty w'.dead_list ≡ true = rw held.dead_list no_dead in
              let v' : Vacant w' = record {
                table = held.active ∙ v.table;
                dead = held.dead_list ∙ v.dead;
              } in
              if-Returns (λ a. Vacant) (nonzero (a.0)) _ _ w'
                (λ bad. ground (arith, g, no_active', no_dead', v')) (λ good. v')))
    where
      ready : World H L
      ready =
          logged w (sem_init reaper_thread_exited)
            (env.result w.trace (sem_init reaper_thread_exited))

  create_empty-Vacant :
      (w : World H L)
      → Returns
          (λ a w'. is_zero (a.0) ≡ true → Vacant w' × ((stored (a.1) null == null) ≡ false))
          (create_empty env local w)
  unfolding create_empty
  create_empty-Vacant w = ground arith

  -- A start that succeeds leaves an empty database.
  pub power_arbiter_initialize-Vacant :
      (loc : Ptr) (w : World H L)
      → Returns (λ a w'. is_zero (a.0) ≡ true → Vacant w') (power_arbiter_initialize env loc w)
  unfolding power_arbiter_initialize free_ctx free_mutex
  power_arbiter_initialize-Vacant loc w =
      if-Returns P (loc == null) _ _ w (λ missing z. cc)
        (λ given.
          if-Returns P (pos_part address == null) _ _ allocated_world (λ full z. cc)
            (λ got.
              if-Returns P (nonzero err) _ _ ready (λ bad z. absurd (ground (arith, bad, z)))
                (λ made.
                  Returns-bind P _ (create_empty env local ready) _ (create_empty-Vacant ready)
                    (λ a w' fresh.
                      if-Returns P (nonzero (a.0)) _ _ w' (λ bad z. absurd (ground (arith, bad, z)))
                        (λ good.
                          let f = fresh (ground (arith, good)) in
                          Returns-mono (λ a. Vacant) P _
                            (initialize_semaphore-Vacant (pos_part address) (stored (a.1) null) w'
                              f.1 f.0)
                            (λ b w'' v z. v))))))
    where
      P : ℤ × Option PaContext → World H L → Type 0
      P a w' = is_zero (a.0) ≡ true → Vacant w'

      address : ℤ
      address = env.result w.trace malloc

      allocated_world : World H L
      allocated_world = logged w malloc address

      err : ℤ
      err = env.result allocated_world.trace (mutex_init context_lock)

      ready : World H L
      ready = logged allocated_world (mutex_init context_lock) err
