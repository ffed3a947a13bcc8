-- ===== src/Lifecycle/Order.antt =====
-- The order in which the combined hooks stand and run.
use testcontainers_go.Base.{
  ◌≡◌, refl, ◌∙◌, List, [], ◌∷◌, ◌++◌, concat_map, append_assoc, append-nil,
}
use testcontainers_go.Lifecycle.{
  ContainerLifecycleHooks, append_pre, append_all, append_post, each, combine_container_hooks,
  no_hooks,
}

module _ {Ctx Request W : Type 0} where
  module _ {A : Type 0} (field : ContainerLifecycleHooks Ctx Request W → List A) where
    each-appends :
        (body : ContainerLifecycleHooks Ctx Request W
          → ContainerLifecycleHooks Ctx Request W
          → ContainerLifecycleHooks Ctx Request W)
        → ((acc h : ContainerLifecycleHooks Ctx Request W)
            → field (body acc h) ≡ field acc ++ field h)
        → (hs : List (ContainerLifecycleHooks Ctx Request W))
          (acc : ContainerLifecycleHooks Ctx Request W)
        → field (each body hs acc) ≡ field acc ++ concat_map field hs
    unfolding each
    each-appends body step [] acc = rw append-nil
    each-appends body step (h ∷ hs) acc =
        each-appends body step hs (body acc h) ∙ rw (step acc h, append_assoc)

    each-keeps :
        (body : ContainerLifecycleHooks Ctx Request W
          → ContainerLifecycleHooks Ctx Request W
          → ContainerLifecycleHooks Ctx Request W)
        → ((acc h : ContainerLifecycleHooks Ctx Request W) → field (body acc h) ≡ field acc)
        → (hs : List (ContainerLifecycleHooks Ctx Request W))
          (acc : ContainerLifecycleHooks Ctx Request W)
        → field (each body hs acc) ≡ field acc
    unfolding each
    each-keeps body step [] acc = refl
    each-keeps body step (h ∷ hs) acc = each-keeps body step hs (body acc h) ∙ step acc h

  module _ {A : Type 0} (field : ContainerLifecycleHooks Ctx Request W → List A)
      (default user : List (ContainerLifecycleHooks Ctx Request W)) (empty : field no_hooks ≡ [])
      (all_step : (acc h : ContainerLifecycleHooks Ctx Request W)
        → field (append_all acc h) ≡ field acc ++ field h) where
    pre_order :
        ((acc h : ContainerLifecycleHooks Ctx Request W)
          → field (append_pre acc h) ≡ field acc ++ field h)
        → ((acc h : ContainerLifecycleHooks Ctx Request W) → field (append_post acc h) ≡ field acc)
        → field (combine_container_hooks default user)
          ≡ concat_map field default ++ concat_map field user
    unfolding combine_container_hooks
    pre_order pre post =
        each-keeps field append_post post default _
        ∙ each-appends field append_all all_step user _
        ∙ rw (each-appends field append_pre pre default no_hooks, empty)

    post_order :
        ((acc h : ContainerLifecycleHooks Ctx Request W) → field (append_pre acc h) ≡ field acc)
        → ((acc h : ContainerLifecycleHooks Ctx Request W)
            → field (append_post acc h) ≡ field acc ++ field h)
        → field (combine_container_hooks default user)
          ≡ concat_map field user ++ concat_map field default
    unfolding combine_container_hooks
    post_order pre post =
        each-appends field append_post post default _
        ∙ rw (
          each-appends field append_all all_step user (each append_pre default no_hooks),
          each-keeps field append_pre pre default no_hooks,
          empty,
        )

  -- What `combineContainerHooks` promises: each list of pre-hooks is the default hooks followed by
  -- the user's, and each list of post-hooks is the user's followed by the default ones.
  pub record InOrder (default user : List (ContainerLifecycleHooks Ctx Request W))
      (h : ContainerLifecycleHooks Ctx Request W) : Type 0 where
    pub pre_creates :
        h.pre_creates
        ≡ concat_map (λ k. k.pre_creates) default ++ concat_map (λ k. k.pre_creates) user
    pub pre_starts :
        h.pre_starts ≡ concat_map (λ k. k.pre_starts) default ++ concat_map (λ k. k.pre_starts) user
    pub pre_stops :
        h.pre_stops ≡ concat_map (λ k. k.pre_stops) default ++ concat_map (λ k. k.pre_stops) user
    pub pre_terminates :
        h.pre_terminates
        ≡ concat_map (λ k. k.pre_terminates) default ++ concat_map (λ k. k.pre_terminates) user
    pub post_creates :
        h.post_creates
        ≡ concat_map (λ k. k.post_creates) user ++ concat_map (λ k. k.post_creates) default
    pub post_starts :
        h.post_starts
        ≡ concat_map (λ k. k.post_starts) user ++ concat_map (λ k. k.post_starts) default
    pub post_readies :
        h.post_readies
        ≡ concat_map (λ k. k.post_readies) user ++ concat_map (λ k. k.post_readies) default
    pub post_stops :
        h.post_stops ≡ concat_map (λ k. k.post_stops) user ++ concat_map (λ k. k.post_stops) default
    pub post_terminates :
        h.post_terminates
        ≡ concat_map (λ k. k.post_terminates) user ++ concat_map (λ k. k.post_terminates) default

  -- The combined lifecycle hooks hold, in each of the nine lists, exactly the default and the
  -- user-defined hooks, each kind in its own order: the default ones first before an operation,
  -- the user's first after it.
  pub combine_container_hooks-InOrder :
      (default user : List (ContainerLifecycleHooks Ctx Request W))
      → InOrder default user (combine_container_hooks default user)
  unfolding append_pre append_all append_post
  combine_container_hooks-InOrder default user = record {
    pre_creates =
        pre_order (λ k. k.pre_creates) default user refl (λ a h. refl) (λ a h. refl) (λ a h. refl);
    pre_starts =
        pre_order (λ k. k.pre_starts) default user refl (λ a h. refl) (λ a h. refl) (λ a h. refl);
    pre_stops =
        pre_order (λ k. k.pre_stops) default user refl (λ a h. refl) (λ a h. refl) (λ a h. refl);
    pre_terminates =
        pre_order (λ k. k.pre_terminates) default user refl (λ a h. refl) (λ a h. refl)
          (λ a h. refl);
    post_creates =
        post_order (λ k. k.post_creates) default user refl (λ a h. refl) (λ a h. refl)
          (λ a h. refl);
    post_starts =
        post_order (λ k. k.post_starts) default user refl (λ a h. refl) (λ a h. refl) (λ a h. refl);
    post_readies =
        post_order (λ k. k.post_readies) default user refl (λ a h. refl) (λ a h. refl)
          (λ a h. refl);
    post_stops =
        post_order (λ k. k.post_stops) default user refl (λ a h. refl) (λ a h. refl) (λ a h. refl);
    post_terminates =
        post_order (λ k. k.post_terminates) default user refl (λ a h. refl) (λ a h. refl)
          (λ a h. refl);
  }
