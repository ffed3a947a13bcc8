-- ===== src/Container/Laws.antt =====
-- What the operations on a container do, where it has one list of combined hooks.
use testcontainers_go.Base.{
  ◌≡◌, refl, ◌↔◌, Bool, true, false, Option, none, List, [], ◌∷◌, arith, inl, ◌⊎◌, ℕ,
}
use testcontainers_go.Errors.{Error, join}
use testcontainers_go.Lifecycle.{
  ContainerLifecycleHooks, ContainerHook, apply_lifecycle_hooks, collect,
}
use testcontainers_go.Lifecycle.Running.{after_hooks, NoneFails, container_hook_fn_lem}
use testcontainers_go.Container.{
  Live, Client, run_stage, stopping_hook, stopped_hook, starting_hook, started_hook, readied_hook,
  outside, or_return, set_running, stop, start, after_start, deferred, seconds,
}

module _ {Ctx Request W : Type 0} (K : Client Ctx W)
    (h : ContainerLifecycleHooks Ctx Request (Live W)) (ctx : Ctx) where
  -- A stage returns no error exactly when none of its hooks fails.
  run_stage-none :
      (b : Bool)
      (stage : ContainerLifecycleHooks Ctx Request (Live W) → List (ContainerHook Ctx (Live W)))
      (l : Live W)
      → ((run_stage K (h ∷ []) ctx b stage l).0 ≡ none) ↔ NoneFails ctx (stage h) l
  unfolding run_stage apply_lifecycle_hooks collect join
  run_stage-none b stage l = ground (arith, (container_hook_fn_lem ctx (stage h) l).1)

  -- Without logging, or without a failure, a stage leaves what its hooks leave.
  run_stage-world :
      (b : Bool)
      (stage : ContainerLifecycleHooks Ctx Request (Live W) → List (ContainerHook Ctx (Live W)))
      (l : Live W)
      → (b ≡ false) ⊎ NoneFails ctx (stage h) l
      → (run_stage K (h ∷ []) ctx b stage l).1 ≡ after_hooks ctx (stage h) l
  unfolding run_stage apply_lifecycle_hooks collect join
  run_stage-world b stage l quiet = ground (
    arith,
    (container_hook_fn_lem ctx (stage h) l).0,
    (container_hook_fn_lem ctx (stage h) l).1,
    quiet,
  )

  -- The world after each step of a termination, whatever the steps return.
  abbrev pub terminating : Live W → Live W
  terminating l = after_hooks ctx h.pre_terminates (l.0, K.signal l.1)

  abbrev pub removed : Live W → Option Error × Live W
  removed l = outside (K.container_remove ctx (terminating l).0.id) (terminating l)

  abbrev pub terminated : Live W → Live W
  terminated l = after_hooks ctx h.post_terminates (removed l).1

  -- The container in the client's hands, after the hooks before a start or a stop.
  abbrev pub launched : Live W → Option Error × Live W
  launched l = let s = after_hooks ctx h.pre_starts l in outside (K.container_start ctx s.0.id) s

  abbrev pub halted : Option ℕ → Live W → Option Error × Live W
  halted timeout l =
      let s = after_hooks ctx h.pre_stops l in
      outside (K.container_stop ctx s.0.id (seconds timeout)) s

  after_start-none :
      (l : Live W)
      → ((after_start K (h ∷ []) ctx l).0 ≡ none) ↔ (
          NoneFails ctx h.post_starts l
          × NoneFails ctx h.post_readies (set_running true (after_hooks ctx h.post_starts l)))
  unfolding after_start started_hook readied_hook or_return deferred
  after_start-none l =
      let s = run_stage-none true (λ k. k.post_starts) l in
      let v = run_stage-world true (λ k. k.post_starts) l in
      let t =
        run_stage-none true (λ k. k.post_readies)
          (set_running true (run_stage K (h ∷ []) ctx true (λ k. k.post_starts) l).1) in
      ground (arith, s, v, t)

  -- A start returns no error exactly when no hook before the start fails, the daemon starts the
  -- container, and no hook after the start and then no hook after readiness fails, the last ones
  -- on a container marked as running.
  pub start_lem :
      (l : Live W)
      → ((start K (h ∷ []) ctx l).0 ≡ none) ↔ (
          NoneFails ctx h.pre_starts l
          × ((launched l).0 ≡ none)
          × NoneFails ctx h.post_starts (launched l).1
          × NoneFails ctx h.post_readies
              (set_running true (after_hooks ctx h.post_starts (launched l).1)))
  unfolding start starting_hook or_return
  start_lem l =
      let s = run_stage-none true (λ k. k.pre_starts) l in
      let v = run_stage-world true (λ k. k.pre_starts) l in
      let a = after_start-none (launched l).1 in ground (arith, s, v, a)

  -- A stop returns no error exactly when no hook before the stop fails, the daemon stops the
  -- container, and no hook after the stop fails on a container marked as not running.
  pub stop_lem :
      (timeout : Option ℕ) (l : Live W)
      → ((stop K (h ∷ []) ctx timeout l).0 ≡ none) ↔ (
          NoneFails ctx h.pre_stops l
          × ((halted timeout l).0 ≡ none)
          × NoneFails ctx h.post_stops (set_running false (halted timeout l).1))
  unfolding stop stopping_hook stopped_hook or_return deferred
  stop_lem timeout l =
      let s = run_stage-none false (λ k. k.pre_stops) l in
      let v = run_stage-world false (λ k. k.pre_stops) l (inl refl) in
      let t = run_stage-none false (λ k. k.post_stops) (set_running false (halted timeout l).1) in
      ground (arith, s, v, t)
