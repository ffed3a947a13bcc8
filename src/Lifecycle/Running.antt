-- ===== src/Lifecycle/Running.antt =====
-- What running a list of hooks does: which hooks are called, on which world, and what is returned.
use testcontainers_go.Base.{
  ◌≡◌, refl, ◌∙◌, ◌↔◌, true, Option, none, some, List, [], ◌∷◌, ◌++◌, M, all, is_none, arith,
  concat_map,
}
use testcontainers_go.Errors.{Error}
use testcontainers_go.Errors.Laws.{join-none}
use testcontainers_go.Lifecycle.{
  ContainerLifecycleHooks, ContainerHook, RequestHook, collect, container_hook_fn,
  run_request_hooks, first_failure, creating, combine_container_hooks,
}
use testcontainers_go.Lifecycle.Order.{combine_container_hooks-InOrder}

module _ {Ctx W : Type 0} (ctx : Ctx) where
  -- The world after all of the hooks, whatever they returned.
  abbrev pub after_hooks : List (ContainerHook Ctx W) → W → W
  after_hooks [] w = w
  after_hooks (h ∷ hs) w = after_hooks hs (h ctx w).1

  -- No hook fails on the world in which it is called.
  abbrev pub NoneFails : List (ContainerHook Ctx W) → W → Type 0
  NoneFails [] w = Unit
  NoneFails (h ∷ hs) w = ((h ctx w).0 ≡ none) × NoneFails hs (h ctx w).1

  collect-world :
      (hs : List (ContainerHook Ctx W)) (w : W) → (collect (λ h. h ctx) hs w).1 ≡ after_hooks hs w
  unfolding collect
  collect-world [] w = refl
  collect-world (h ∷ hs) w = collect-world hs (h ctx w).1

  collect-NoneFails :
      (hs : List (ContainerHook Ctx W)) (w : W)
      → (all is_none (collect (λ h. h ctx) hs w).0 ≡ true) ↔ NoneFails hs w
  unfolding collect
  collect-NoneFails [] w = (λ _. tt, λ _. refl)
  collect-NoneFails (h ∷ hs) w = ground (arith, collect-NoneFails hs (h ctx w).1)

  -- Running a list of container hooks calls every hook, also after one has failed, and returns no
  -- error exactly when none of the calls failed.
  pub container_hook_fn_lem :
      (hs : List (ContainerHook Ctx W)) (w : W)
      → ((container_hook_fn ctx hs w).1 ≡ after_hooks hs w)
        × (((container_hook_fn ctx hs w).0 ≡ none) ↔ NoneFails hs w)
  unfolding container_hook_fn
  container_hook_fn_lem hs w =
      let es = (collect (λ h. h ctx) hs w).0 in
      (
        collect-world hs w,
        (
          λ h. (collect-NoneFails hs w).0 ((join-none es).0 h),
          λ h. (join-none es).1 ((collect-NoneFails hs w).1 h),
        ),
      )

  pub after_hooks-append :
      (hs ks : List (ContainerHook Ctx W)) (w : W)
      → after_hooks (hs ++ ks) w ≡ after_hooks ks (after_hooks hs w)
  after_hooks-append [] ks w = refl
  after_hooks-append (h ∷ hs) ks w = after_hooks-append hs ks (h ctx w).1

  pub NoneFails-append :
      (hs ks : List (ContainerHook Ctx W)) (w : W)
      → NoneFails (hs ++ ks) w ↔ (NoneFails hs w × NoneFails ks (after_hooks hs w))
  NoneFails-append [] ks w = (λ h. (tt, h), λ h. h.1)
  NoneFails-append (h ∷ hs) ks w =
      let ih = NoneFails-append hs ks (h ctx w).1 in
      (λ (a, b). ((a, (ih.0 b).0), (ih.0 b).1), λ ((a, b), c). (a, ih.1 (b, c)))

-- The hooks up to the first that fails: those before it pass, each on the world that the one before
-- it left, and those behind it are not called.
pub data FailsAt {Ctx Request W : Type 0} (ctx : Ctx) (req : Request)
    : List (RequestHook Ctx Request W) → W → Error → W → Type 0 where
  here :
      (h : RequestHook Ctx Request W) {hs : List (RequestHook Ctx Request W)} {w w' : W} {e : Error}
      → h ctx req w ≡ (some e, w')
      → FailsAt ctx req (h ∷ hs) w e w'
  there :
      (h : RequestHook Ctx Request W) {hs : List (RequestHook Ctx Request W)} {w v w' : W}
      {e : Error}
      → h ctx req w ≡ (none, v)
      → FailsAt ctx req hs v e w'
      → FailsAt ctx req (h ∷ hs) w e w'

module _ {Ctx Request W : Type 0} (ctx : Ctx) (req : Request) where
  first_fails :
      (h : RequestHook Ctx Request W) (hs : List (RequestHook Ctx Request W)) (w w' : W) (e : Error)
      (r : Option Error × W) (rest : M W (Option Error))
      → h ctx req w ≡ r
      → first_failure r rest ≡ (some e, w')
      → ((v : W) → rest v ≡ (some e, w') → FailsAt ctx req hs v e w')
      → FailsAt ctx req (h ∷ hs) w e w'
  unfolding first_failure
  first_fails h hs w w' e (some x, v) rest p q later = here h (p ∙ q)
  first_fails h hs w w' e (none, v) rest p q later = there h p (later v q)

  pub run_request_hooks-FailsAt :
      (hs : List (RequestHook Ctx Request W)) (w w' : W) (e : Error)
      → run_request_hooks hs ctx req w ≡ (some e, w')
      → FailsAt ctx req hs w e w'
  unfolding run_request_hooks
  run_request_hooks-FailsAt [] w w' e p = cc
  run_request_hooks-FailsAt (h ∷ hs) w w' e p =
      first_fails h hs w w' e _ (run_request_hooks hs ctx req) refl p
        (λ v q. run_request_hooks-FailsAt hs v w' e q)

  pub FailsAt-run_request_hooks :
      {hs : List (RequestHook Ctx Request W)} {w w' : W} {e : Error}
      → FailsAt ctx req hs w e w'
      → run_request_hooks hs ctx req w ≡ (some e, w')
  unfolding run_request_hooks
  FailsAt-run_request_hooks (here h p) = rw p
  FailsAt-run_request_hooks (there h p rest) = rw p (FailsAt-run_request_hooks rest)

  -- The hooks before a creation fail with an error exactly when that is the error of the first
  -- hook that fails; they stop there, with the world that this hook left.
  pub creating_fails :
      (hooks : ContainerLifecycleHooks Ctx Request W) (w w' : W) (e : Error)
      → (creating hooks ctx req w ≡ (some e, w')) ↔ FailsAt ctx req hooks.pre_creates w e w'
  unfolding creating
  creating_fails hooks w w' e =
      (run_request_hooks-FailsAt hooks.pre_creates w w' e, FailsAt-run_request_hooks)

module _ {Ctx Request W : Type 0} (ctx : Ctx)
    (default user : List (ContainerLifecycleHooks Ctx Request W)) where
  -- Running the combined hooks before a start runs the default hooks first and the user's on the
  -- world that they leave, and fails exactly when one of either fails.
  pub combined_pre_starts :
      (w : W)
      → let first = concat_map (λ k. k.pre_starts) default in
        let second = concat_map (λ k. k.pre_starts) user in
        let r = container_hook_fn ctx (combine_container_hooks default user).pre_starts w in
        (r.1 ≡ after_hooks ctx second (after_hooks ctx first w))
        × ((r.0 ≡ none) ↔ (NoneFails ctx first w × NoneFails ctx second (after_hooks ctx first w)))
  combined_pre_starts w =
      let first = concat_map (λ k. k.pre_starts) default in
      let second = concat_map (λ k. k.pre_starts) user in
      let (world, fails) = container_hook_fn_lem ctx (first ++ second) w in
      rw (combine_container_hooks-InOrder default user).pre_starts (
        world ∙ after_hooks-append ctx first second w,
        (
          λ h. (NoneFails-append ctx first second w).0 (fails.0 h),
          λ h. fails.1 ((NoneFails-append ctx first second w).1 h),
        ),
      )

  -- Running the combined hooks after a stop runs the user's hooks first and the default ones on
  -- the world that they leave, and fails exactly when one of either fails.
  pub combined_post_stops :
      (w : W)
      → let first = concat_map (λ k. k.post_stops) user in
        let second = concat_map (λ k. k.post_stops) default in
        let r = container_hook_fn ctx (combine_container_hooks default user).post_stops w in
        (r.1 ≡ after_hooks ctx second (after_hooks ctx first w))
        × ((r.0 ≡ none) ↔ (NoneFails ctx first w × NoneFails ctx second (after_hooks ctx first w)))
  combined_post_stops w =
      let first = concat_map (λ k. k.post_stops) user in
      let second = concat_map (λ k. k.post_stops) default in
      let (world, fails) = container_hook_fn_lem ctx (first ++ second) w in
      rw (combine_container_hooks-InOrder default user).post_stops (
        world ∙ after_hooks-append ctx first second w,
        (
          λ h. (NoneFails-append ctx first second w).0 (fails.0 h),
          λ h. fails.1 ((NoneFails-append ctx first second w).1 h),
        ),
      )
