-- ===== src/Provider/Runs/Signals.antt =====
-- That a creation which fails ends the connection to the reaper that it made.
use testcontainers_go.Base.{
  ℕ, ◌≡◌, refl, ◌∙◌, subst, String, Bool, false, Option, none, some, List, [],
}
use testcontainers_go.Errors.{Error, Result, ok, err}
use testcontainers_go.Errors.Flow.{and_then, ◌>>=◌, checked, on_error, finally}
use testcontainers_go.Errors.Flow.Keeping.{Keeps, bind-after, then-after}
use testcontainers_go.Lifecycle.{creating_hook}
use testcontainers_go.Container.{DockerContainer, Client, run_stage}
use testcontainers_go.Options.{ImageSubstitutor, all_substitutors, prepend_hub_registry}
use testcontainers_go.Request.{ContainerRequest, validate}
use testcontainers_go.Provider.{Daemon, Live, outside, at_world, ensure_default_network}
use testcontainers_go.Provider.Reaping.{Reaping, send_signal}
use testcontainers_go.Provider.Images.{Registry}
use testcontainers_go.Provider.Images.Pulls.{IsQuiet, image_of-Keeps}
use testcontainers_go.Provider.PreCreate.{Inputs, Setup, Nat}
use testcontainers_go.Provider.Creation.{
  Made, Session, Hooks, inputs_of, env_list, labels_of, no_container, connect_networks,
  other_networks, container_signal, create_call, container_of, with_networks, with_labels,
}
use testcontainers_go.Provider.Runs.Quiet.{
  IsQuietDaemon, ensure-Keeps, connects-Keeps, create-Keeps,
}
use testcontainers_go.Provider.Runs.{
  Defaults, forwarding, hooks_of, made_or_error, created_stage, network_stage, after_creating,
  hooked_creation, forwarded_creation, substituted_image, imaged_creation, creation,
  connected_creation, create_container,
}
use testcontainers_go.Provider.Connections.{
  IsReaping, Balanced, Carries, Signaled, signal-Signaled, send-ended,
}

module _ {Ctx I A R F Reaper Signal Auth Platform Options Reader W : Type 0} (D : Daemon Ctx I W)
    (P : Reaping Ctx Reaper Signal W) (G : Registry Ctx Auth Platform Options Reader W)
    (tests : List (Error → Bool)) (S : Session Ctx R Platform W) (N : Nat)
    (K : Client Ctx (Setup R W)) (d : Defaults Ctx A R F W) (user : List (Hooks Ctx A R F W))
    (n : W → ℕ) where
  -- The hooks of the container, where its request exposes no ports of the host.
  abbrev pub own_hooks : List (Hooks Ctx A R F W)
  own_hooks = hooks_of D P G tests S N K d [] user

  -- No hook before or after the creation opens or ends a connection.
  pub record IsQuietHooks : Type 0 where
    pub no_ports : d.expose_host_ports ≡ none
    pub before :
        (ctx : Ctx) (req : ContainerRequest A R F)
        → Keeps (λ s. n s.1.1.1) (creating_hook own_hooks ctx req)
    pub after :
        (ctx : Ctx) → Keeps (λ s. n s.1.1.1) (run_stage K own_hooks ctx false (λ h. h.post_creates))

  module _ (Q : IsQuietDaemon D S n) (Z : IsQuiet G n) (H : IsQuietHooks) where
    made-Carries :
        (k : ℕ) (m : Made Signal (List (Hooks Ctx A R F W)))
        (r : Option Error × (DockerContainer × Setup R W))
        → n r.1.1.1.1 ≡ k
        → Carries n k m.termination_signal (made_or_error D P G tests S N K m r)
    unfolding made_or_error
    made-Carries k m (some e, (c, (i, l))) h = h
    made-Carries k m (none, (c, (i, l))) h = (refl, h)

    network-Carries :
        (ctx : Ctx) (req : ContainerRequest A R F) (image : String) (s : Option Signal)
        (i : Inputs R) (id : String) (l : Live W)
        → Carries n (n l.1) s (network_stage D P G tests S N K ctx req image s own_hooks i id l)
    unfolding network_stage container_of created_stage
    network-Carries ctx req image s i id l =
        then-after (λ l. n l.1) (Carries n (n l.1) s)
          (connect_networks D S ctx id req.network_aliases (other_networks req.networks))
          (created_stage D P G tests S N K ctx i
            (container_of S.session_id req id image s own_hooks))
          l (connects-Keeps D S n Q ctx id req.network_aliases (other_networks req.networks))
          (λ e l' h. h)
          (λ l' h.
            made-Carries (n l.1) (container_of S.session_id req id image s own_hooks) _
              (H.after ctx _ ∙ h))

    after-Carries :
        (ctx : Ctx) (req : ContainerRequest A R F) (image : String) (p : Option Platform)
        (s : Option Signal) (r : Option Error × (DockerContainer × Setup R W)) (k : ℕ)
        → n r.1.1.1.1 ≡ k
        → Carries n k s (after_creating D P G tests S N K ctx req image p s own_hooks r)
    unfolding after_creating
    after-Carries ctx req image p s (some e, (c, (i, l))) k h = h
    after-Carries ctx req image p s (none, (c, (i, l))) k h =
        bind-after (λ l. n l.1) (Carries n k s) (create_call S ctx req.name p i)
          (network_stage D P G tests S N K ctx req image s own_hooks i) l
          (create-Keeps D S n Q ctx req.name p i) (λ e l' g. g ∙ h)
          (λ id l' g.
            subst
              (λ j.
                Carries n j s (network_stage D P G tests S N K ctx req image s own_hooks i id l'))
              (g ∙ h) (network-Carries ctx req image s i id l'))

    hooked-Carries :
        (ctx : Ctx) (req : ContainerRequest A R F) (s : Option Signal)
        (image : String × Option Platform) (l : Live W)
        → Carries n (n l.1) s (hooked_creation D P G tests S N K ctx d user req s image [] l)
    unfolding hooked_creation
    hooked-Carries ctx req s (image, p) l =
        let labels = labels_of (S.is_reaper_image req.image) S.default_labels req in
        let labeled = with_labels labels req in
        let start : DockerContainer × Setup R W =
          (no_container, (inputs_of labeled image (env_list req.env) labels, l)) in
        after-Carries ctx labeled image p s (creating_hook own_hooks ctx labeled start) (n l.1)
          (H.before ctx labeled start)

    forwarded-Carries :
        (ctx : Ctx) (req : ContainerRequest A R F) (s : Option Signal)
        (image : String × Option Platform) (l : Live W)
        → Carries n (n l.1) s (forwarded_creation D P G tests S N K ctx d user req s image l)
    unfolding forwarded_creation forwarding ◌>>=◌ and_then
    forwarded-Carries ctx req s image l = rw H.no_ports (hooked-Carries ctx req s image l)

    substituted-Keeps :
        (ctx : Ctx) (ss : List ImageSubstitutor) (req : ContainerRequest A R F)
        → Keeps (λ l. n l.1) (substituted_image D P G tests S N K ctx ss req)
    unfolding substituted_image outside
    substituted-Keeps ctx ss req (p, w) =
        image_of-Keeps G tests n Z ctx
          (all_substitutors ss (prepend_hub_registry S.join S.registry p.hub_image_name_prefix)) req
          w

    creation-Carries :
        (ctx : Ctx) (ss : List ImageSubstitutor) (req : ContainerRequest A R F) (s : Option Signal)
        (l : Live W)
        → Carries n (n l.1) s (creation D P G tests S N K ctx d user ss req s l)
    unfolding creation imaged_creation checked
    creation-Carries ctx ss req s l =
        then-after (λ l. n l.1) (Carries n (n l.1) s) (checked (λ l. (validate req, l)))
          (imaged_creation D P G tests S N K ctx d user ss req s) l (λ l. refl) (λ e l' h. h)
          (λ l' h.
            subst (λ j. Carries n j s (imaged_creation D P G tests S N K ctx d user ss req s l')) h
              (bind-after (λ l. n l.1) (Carries n (n l'.1) s)
                (substituted_image D P G tests S N K ctx ss req)
                (forwarded_creation D P G tests S N K ctx d user req s) l'
                (substituted-Keeps ctx ss req) (λ e m g. g)
                (λ image m g.
                  subst
                    (λ j.
                      Carries n j s (forwarded_creation D P G tests S N K ctx d user req s image m))
                    g (forwarded-Carries ctx req s image m))))

    Signaled-Balanced :
        (L : IsReaping P n) (ctx : Ctx) (ss : List ImageSubstitutor) (req : ContainerRequest A R F)
        (k : ℕ) (r : Result (Option Signal) × Live W)
        → Signaled n k r
        → Balanced n k (
            and_then r
              (λ s. on_error (send_signal P s) (creation D P G tests S N K ctx d user ss req s)))
    unfolding and_then on_error
    Signaled-Balanced L ctx ss req k (err e, l) h = h
    Signaled-Balanced L ctx ss req k (ok s, l) h =
        send-ended P n L s k (creation D P G tests S N K ctx d user ss req s l) (
          subst (λ j. Carries n j s (creation D P G tests S N K ctx d user ss req s l)) h
            (creation-Carries ctx ss req s l))

    connected-Balanced :
        (L : IsReaping P n) (ctx : Ctx) (ss : List ImageSubstitutor) (req : ContainerRequest A R F)
        (l : Live W)
        → Balanced n (n l.1) (connected_creation D P G tests S N K ctx d user ss req l)
    unfolding connected_creation ◌>>=◌
    connected-Balanced L ctx ss req l =
        Signaled-Balanced L ctx ss (with_networks req l.0) (n l.1)
          (container_signal P ctx (S.is_reaper_image req.image) l)
          (signal-Signaled P n L ctx (S.is_reaper_image req.image) l)

    closed-Balanced :
        (k : ℕ) (r : Result (Made Signal (List (Hooks Ctx A R F W))) × Live W)
        → Balanced n k r
        → Balanced n k (r.0, at_world D.close r.1)
    unfolding at_world
    closed-Balanced k (err e, (p, w)) h = Q.close w ∙ h
    closed-Balanced k (ok m, (p, w)) h = Q.close w ∙ h

    -- If only the connecting to the reaper and a send on its channel change the number of open
    -- connections, and the request exposes no ports of the host, then a creation of a container
    -- that fails leaves as many connections open as there were, and one that succeeds leaves one
    -- more exactly where the container carries a channel to end it.
    pub create_container-Balanced :
        (L : IsReaping P n) (ctx : Ctx) (ss : List ImageSubstitutor) (req : ContainerRequest A R F)
        (l : Live W)
        → Balanced n (n l.1) (create_container D P G tests S N K ctx d user ss req l)
    unfolding create_container finally
    create_container-Balanced L ctx ss req l = closed-Balanced (n l.1) _ (
        then-after (λ l. n l.1) (Balanced n (n l.1)) (ensure_default_network D S.default_labels ctx)
          (connected_creation D P G tests S N K ctx d user ss req) l (ensure-Keeps D S n Q ctx)
          (λ e l' h. h)
          (λ l' h.
            subst (λ j. Balanced n j (connected_creation D P G tests S N K ctx d user ss req l')) h
              (connected-Balanced L ctx ss req l')))
