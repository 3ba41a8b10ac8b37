-- ===== src/Validation/Fork/Ends.antt =====
-- How a run of test1_fork.c ends, in the parent and in the child.
use cinder_userspace.Base.{
  ℕ, ◌+◌, ◌/◌, ◌≡◌, refl, ◌∙◌, ap, true, false, List, [], ◌∷◌, ◌++◌, Option, none, some, arith, ◌⊎◌,
  inl, inr, length,
}
use cinder_userspace.Base.Int.{ℤ, pos, is_zero, is_neg, eq_ℤ}
use cinder_userspace.Os.{Call, Env, syscall, fork}
use cinder_userspace.Os.Ledger.{asked, reserves}
use cinder_userspace.Store.{
  World, Cmd, Returns, Returns-and, Returns-bind, Returns-mono, if-Returns, logged, pure,
}
use cinder_userspace.Syscall.{cinder_tap_rate_constant}
use cinder_userspace.Sock.{minus_one}
use cinder_userspace.Console.Prompts.{cap_reserve_draw}
use cinder_userspace.Console.Reserves.{
  sys_reserve_level, sys_add_reserve_child_list, sys_del_reserve_child_list,
}
use cinder_userspace.Validation.Ledger.{rates, links, forks}
use cinder_userspace.Validation.Subdivide.{root_reserve_id, create_pair}
use cinder_userspace.Validation.Subdivide.Flows.{Made, create_pair-Made}
use cinder_userspace.Validation.Fork.{
  rsvname, tapname, read_arguments, test_method, run_parent, fork_child, main,
}
use cinder_userspace.Validation.Fork.Polls.{polled, Polled, test_method-Polled}

is_zero-pos : (r : ℤ) → is_zero r ≡ true → r ≡ pos 0
is_zero-pos r h = ground (arith, h)

module _ {H L : Type 0} where
  -- In the child, where `fork` returned 0, the level was asked for; in the parent, where it returned
  -- the number of the child, the tap flows.
  abbrev pub Tried : (maxval : ℕ) (tap_rate reserve tap : ℤ) (w w' : World H L) → Type 0
  Tried maxval tap_rate reserve tap w w' =
      ((forks w'.trace ≡ forks w.trace ++ pos 0 ∷ [])
        × (asked sys_reserve_level w'.trace
            ≡ polled reserve ((maxval + 99) / 100) (asked sys_reserve_level w.trace))
        × (rates w'.trace ≡ rates w.trace))
      ⊎ ((forkpid : ℤ) × (is_zero forkpid ≡ false)
          × (forks w'.trace ≡ forks w.trace ++ forkpid ∷ [])
          × (asked sys_reserve_level w'.trace ≡ asked sys_reserve_level w.trace)
          × (rates w'.trace ≡ rates w.trace ++ (tap, pos cinder_tap_rate_constant, tap_rate) ∷ []))

  -- The child list has the reserve in place of the root.
  abbrev pub Inherited : (reserve : ℤ) (w w' : World H L) → Type 0
  Inherited reserve w w' =
      (asked sys_del_reserve_child_list w'.trace
        ≡ asked sys_del_reserve_child_list w.trace ++ (root_reserve_id ∷ []) ∷ [])
      × (asked sys_add_reserve_child_list w'.trace
          ≡ asked sys_add_reserve_child_list w.trace ++ (reserve ∷ pos cap_reserve_draw ∷ []) ∷ [])

  abbrev pub Ran : (maxval : ℕ) (tap_rate reserve tap : ℤ) (w : World H L) → ℤ → World H L → Type 0
  Ran maxval tap_rate reserve tap w status w' =
      (is_zero status ≡ false → status ≡ pos 1)
      × (links w'.trace ≡ links w.trace)
      × (reserves w'.trace ≡ reserves w.trace)
      × (is_zero status ≡ true → Inherited reserve w w' × Tried maxval tap_rate reserve tap w w')

  abbrev pub Ended : (maxval : ℕ) (tap_rate : ℤ) (w : World H L) → ℤ → World H L → Type 0
  Ended maxval tap_rate w status w' =
      (is_zero status ≡ false → status ≡ pos 1)
      × (is_zero status ≡ true
          → (reserve tap : ℤ) × (links w'.trace
              ≡ links w.trace ++ (root_reserve_id, reserve, tap) ∷ [])
            × (reserves w'.trace ≡ reserve ∷ reserves w.trace)
            × Inherited reserve w w'
            × Tried maxval tap_rate reserve tap w w')

  -- What the creation of the reserve and its tap in front of these calls adds.
  Inherited-asked :
      (reserve : ℤ) (u w w' : World H L)
      → ((k : ℕ) → asked k u.trace ≡ asked k w.trace)
      → Inherited reserve u w'
      → Inherited reserve w w'
  Inherited-asked reserve u w w' kept (removed, added) = (
    removed ∙ ap (λ l. l ++ (root_reserve_id ∷ []) ∷ []) (kept sys_del_reserve_child_list),
    added
        ∙ ap (λ l. l ++ (reserve ∷ pos cap_reserve_draw ∷ []) ∷ [])
            (kept sys_add_reserve_child_list),
  )

  Tried-asked :
      (maxval : ℕ) (tap_rate reserve tap : ℤ) (u w w' : World H L)
      → ((k : ℕ) → asked k u.trace ≡ asked k w.trace)
      → forks u.trace ≡ forks w.trace
      → rates u.trace ≡ rates w.trace
      → Tried maxval tap_rate reserve tap u w'
      → Tried maxval tap_rate reserve tap w w'
  Tried-asked maxval tap_rate reserve tap u w w' kept single same (inl (child, levels, still)) =
      inl (
        child ∙ ap (λ l. l ++ pos 0 ∷ []) single,
        levels ∙ ap (polled reserve ((maxval + 99) / 100)) (kept sys_reserve_level),
        still ∙ same,
      )
  Tried-asked maxval tap_rate reserve tap u w w' kept single same
        (inr (forkpid, parent, forked, levels, flows)) =
      inr (
        forkpid,
        parent,
        forked ∙ ap (λ l. l ++ forkpid ∷ []) single,
        levels ∙ kept sys_reserve_level,
        flows ∙ ap (λ l. l ++ (tap, pos cinder_tap_rate_constant, tap_rate) ∷ []) same,
      )

module _ {H L : Type 0} (env : Env H L) where
  abbrev Parent : (tap tap_rate : ℤ) (w : World H L) → ℤ → World H L → Type 0
  Parent tap tap_rate w status w' =
      (is_zero status ≡ false → status ≡ pos 1)
      × (links w'.trace ≡ links w.trace)
      × ((k : ℕ) → asked k w'.trace ≡ asked k w.trace)
      × (forks w'.trace ≡ forks w.trace)
      × (reserves w'.trace ≡ reserves w.trace)
      × (is_zero status ≡ true
          → rates w'.trace ≡ rates w.trace ++ (tap, pos cinder_tap_rate_constant, tap_rate) ∷ [])

  run_parent-Parent :
      (tap tap_rate forkpid : ℤ) (w : World H L)
      → Returns (Parent tap tap_rate w) (run_parent env tap tap_rate forkpid w)
  unfolding run_parent rates links asked forks reserves
  run_parent-Parent tap tap_rate forkpid w = ground arith

  fork_child-Ran :
      (maxval : ℕ) (tap_rate reserve tap : ℤ) (w : World H L)
      → Returns (Ran maxval tap_rate reserve tap w) (fork_child env maxval tap_rate reserve tap w)
  unfolding fork_child rates links asked forks reserves
  fork_child-Ran maxval tap_rate reserve tap w =
      if-Returns Post (is_neg (env.result w.trace removal)) (pure (pos 1)) _ removed
        (λ bad. (λ z. refl, refl, refl, λ z. cc))
        (λ e1.
          if-Returns Post (is_neg (env.result removed.trace addition)) (pure (pos 1)) _ added
            (λ bad. (λ z. refl, refl, refl, λ z. cc))
            (λ e2.
              if-Returns Post (eq_ℤ (env.result added.trace fork) minus_one) (pure (pos 1)) _ forked
                (λ bad. (λ z. refl, refl, refl, λ z. cc))
                (λ e3.
                  if-Returns Post (is_zero (env.result added.trace fork)) _
                    (run_parent env tap tap_rate (env.result added.trace fork)) forked
                    (λ child.
                      Returns-bind Post (λ a. Polled reserve ((maxval + 99) / 100) forked)
                        (test_method env maxval reserve forked) _
                        (test_method-Polled env maxval reserve forked)
                        (λ a w' d. (
                          λ z. cc,
                          d.links_kept,
                          d.reserves_kept,
                          λ z. (
                            (
                              d.others_kept sys_del_reserve_child_list refl,
                              d.others_kept sys_add_reserve_child_list refl,
                            ),
                            inl (
                              d.forks_kept
                                  ∙ ap (λ r. forks w.trace ++ r ∷ []) (is_zero-pos _ child),
                              d.levels,
                              d.rates_kept,
                            ),
                          ),
                        )))
                    (λ parent.
                      Returns-mono (Parent tap tap_rate forked) Post
                        (run_parent env tap tap_rate (env.result added.trace fork) forked)
                        (run_parent-Parent tap tap_rate (env.result added.trace fork) forked)
                        (λ status w' (one, same, kept, single, held, flows). (
                          one,
                          same,
                          held,
                          λ z. (
                            (kept sys_del_reserve_child_list, kept sys_add_reserve_child_list),
                            inr (
                              env.result added.trace fork,
                              parent,
                              single,
                              kept sys_reserve_level,
                              flows z,
                            ),
                          ),
                        ))))))
    where
      Post : ℤ → World H L → Type 0
      Post = Ran maxval tap_rate reserve tap w

      removal : Call
      removal = syscall sys_del_reserve_child_list (root_reserve_id ∷ [])

      removed : World H L
      removed = logged w removal (env.result w.trace removal)

      addition : Call
      addition = syscall sys_add_reserve_child_list (reserve ∷ pos cap_reserve_draw ∷ [])

      added : World H L
      added = logged removed addition (env.result removed.trace addition)

      forked : World H L
      forked = logged added fork (env.result added.trace fork)

  abbrev Unforked : (w w' : World H L) → Type 0
  Unforked w w' = ((k : ℕ) → asked k w'.trace ≡ asked k w.trace) × (forks w'.trace ≡ forks w.trace)

  create_pair-asked :
      (reserve_name tap_name : List ℕ) (namelen : ℕ) (source : ℤ) (w : World H L)
      → Returns (λ o. Unforked w) (create_pair env reserve_name tap_name namelen source w)
  unfolding create_pair asked forks reserves
  create_pair-asked reserve_name tap_name namelen source w = ground arith

  -- With arguments that its tests accept, test1_fork ends with status 0 or 1. With status 0 it has
  -- created one reserve, made one tap, from the root to it, and has taken the root off the child
  -- list and put the reserve on it, once each; and it has forked once. If the fork returned 0, the
  -- run is the child's: the level of the reserve was asked for once for each hundred begun of the
  -- numbers below the maximum, and no rate was set. Otherwise it is the parent's: the constant rate
  -- of that tap was set, once, and the level was not asked for.
  pub main_forks :
      (argv : List (List ℕ)) (tap_rate : ℤ) (maxval : ℕ) (w : World H L)
      → read_arguments argv ≡ some (tap_rate, maxval)
      → Returns (Ended maxval tap_rate w) (main env argv w)
  unfolding main
  main_forks argv tap_rate maxval w valid =
      rw (Returns, main, valid)
        (Returns-bind (Ended maxval tap_rate w) (λ o u. Made root_reserve_id w o u × Unforked w u)
          (create_pair env rsvname tapname (length tapname + 1) root_reserve_id w) _
          (Returns-and (Made root_reserve_id w) (λ o. Unforked w) _
            (create_pair-Made env rsvname tapname (length tapname + 1) root_reserve_id w)
            (create_pair-asked rsvname tapname (length tapname + 1) root_reserve_id w))
          after)
    where
      after :
          (o : Option (ℤ × ℤ)) (u : World H L)
          → Made root_reserve_id w o u × Unforked w u
          → Returns (Ended maxval tap_rate w) (
              (elim o as (λ o. Cmd H L ℤ) [
                | none ↦ pure (pos 1)
                | some (reserve_id, tap_id) ↦ fork_child env maxval tap_rate reserve_id tap_id
              ])
                u)
      after none u m = (λ z. refl, λ z. cc)
      after (some (reserve, tap)) u ((same, made, new), (kept, single)) =
          Returns-mono (Ran maxval tap_rate reserve tap u) (Ended maxval tap_rate w)
            (fork_child env maxval tap_rate reserve tap u)
            (fork_child-Ran maxval tap_rate reserve tap u)
            (λ status w' (one, linked, held, done). (
              one,
              λ z. (
                reserve,
                tap,
                linked ∙ made,
                held ∙ new,
                Inherited-asked reserve u w w' kept (done z).0,
                Tried-asked maxval tap_rate reserve tap u w w' kept single same (done z).1,
              ),
            ))
