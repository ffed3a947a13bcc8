-- ===== src/Options/Commands.antt =====
-- When the commands of a request are run.
use testcontainers_go.Base.{
  ◌≡◌, sym, ◌∙◌, ap, List, [], ◌∷◌, ◌++◌, map, concat_map, append_assoc, append-nil,
}
use testcontainers_go.Lifecycle.{
  ContainerLifecycleHooks, ContainerHook, combine_container_hooks, no_hooks,
}
use testcontainers_go.Lifecycle.Order.{combine_container_hooks-InOrder}
use testcontainers_go.Options.{GenericRequest, with_startup_command}

concat_map-snoc :
    {A B : Type 0} (f : A → List B) (xs : List A) (x : A)
    → concat_map f (xs ++ x ∷ []) ≡ concat_map f xs ++ f x
concat_map-snoc f [] x = append-nil (f x)
concat_map-snoc f (y ∷ ys) x =
    ap (λ t. f y ++ t) (concat_map-snoc f ys x) ∙ sym (append_assoc (f y) (concat_map f ys) (f x))

module _ {Ctx Request W Executable : Type 0} (exec : Executable → ContainerHook Ctx W)
    (execs : List Executable) (default : List (ContainerLifecycleHooks Ctx Request W))
    (req : GenericRequest Ctx Request W) where
  -- The startup commands of a request are run in their order, after the user's other hooks after a
  -- start and before the default ones.
  pub with_startup_command_lem :
      let user = concat_map (λ k. k.post_starts) req.lifecycle_hooks in
      (combine_container_hooks default
        (with_startup_command exec execs req).lifecycle_hooks).post_starts
      ≡ (user ++ map exec execs) ++ concat_map (λ k. k.post_starts) default
  unfolding with_startup_command
  with_startup_command_lem =
      let all : List (ContainerLifecycleHooks Ctx Request W) =
        (with_startup_command exec execs req).lifecycle_hooks in
      (combine_container_hooks-InOrder default all).post_starts
      ∙ ap (λ t. t ++ concat_map (λ k. k.post_starts) default)
          (concat_map-snoc (λ k. k.post_starts) req.lifecycle_hooks
            (record no_hooks { post_starts = map exec execs }))
