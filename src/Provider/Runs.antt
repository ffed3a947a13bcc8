-- ===== src/Provider/Runs.antt =====
-- docker.go, CreateContainer and RunContainer: the steps of a creation in their order.
pub mod Quiet
pub mod Signals
use testcontainers_go.Base.{
  ℕ, String, Bool, true, false, not, Option, none, some, List, [], ◌∷◌, ◌++◌, if◌then◌else◌, M,
}
use testcontainers_go.Base.Dict.{Dict}
use testcontainers_go.Errors.{Error, wrap, followed, Result, ok, err}
use testcontainers_go.Errors.Flow.{
  Try, and_then, ◌>>=◌, ◌>>◌, done, fail, wrapped, mapped_error, finally, on_error, undone, checked,
  result_of,
}
use testcontainers_go.Lifecycle.{
  ContainerLifecycleHooks, no_hooks, creating_hook, combine_container_hooks,
}
use testcontainers_go.Container.{DockerContainer, Client, run_stage, Live as Held}
use testcontainers_go.Mounts.{DockerMount}
use testcontainers_go.Options.{ImageSubstitutor, all_substitutors, prepend_hub_registry}
use testcontainers_go.Request.{ContainerRequest, validate}
use testcontainers_go.Provider.{Daemon, Live, outside, at_world, ensure_default_network}
use testcontainers_go.Provider.Reaping.{Reaping, send_signal}
use testcontainers_go.Provider.Images.{Registry, image_of, at_once}
use testcontainers_go.Provider.PreCreate.{Inputs, Setup, Nat, pre_create_container_hook}
use testcontainers_go.Provider.Creation.{
  Made, Session, Hooks, inputs_of, env_list, labels_of, container_of, with_networks, with_labels,
  connect_networks, other_networks, container_signal, create_call, no_container, without_container,
}

-- The other default hooks, what the mounts of the request become, and what exposes its host ports,
-- where it has some (port_forwarding.go).
pub record Defaults (Ctx A R F W : Type 0) : Type 0 where
  pub logging : Hooks Ctx A R F W
  pub copying : Hooks Ctx A R F W
  pub consuming : Hooks Ctx A R F W
  pub readiness : Hooks Ctx A R F W
  pub mounts : List DockerMount
  pub expose_host_ports : Option (Ctx → Try (Live W) (Hooks Ctx A R F W))

module _ {Ctx I A R F Reaper Signal Auth Platform Options Reader W : Type 0} (D : Daemon Ctx I W)
    (P : Reaping Ctx Reaper Signal W) (G : Registry Ctx Auth Platform Options Reader W)
    (permanent_client_errors : List (Error → Bool)) (S : Session Ctx R Platform W) (N : Nat)
    (K : Client Ctx (Setup R W)) where
  unfoldable pub default_pre_create_hook : List DockerMount → Hooks Ctx A R F W
  unfolding pre_create_container_hook without_container
  default_pre_create_hook mounts = record no_hooks {
    pre_creates =
        (λ ctx req.
          without_container (pre_create_container_hook D G.image_inspect N mounts ctx req))
        ∷ [];
  }

  unfoldable pub forwarding :
      Ctx
      → Option (Ctx → Try (Live W) (Hooks Ctx A R F W))
      → Try (Live W) (List (Hooks Ctx A R F W))
  unfolding ◌>>=◌ wrapped
  forwarding ctx none = done []
  forwarding ctx (some f) = do h ← wrapped (wrap "expose host ports") (f ctx); done (h ∷ [])

  -- The default hooks, and those of the user, as one.
  unfoldable pub hooks_of :
      Defaults Ctx A R F W
      → List (Hooks Ctx A R F W)
      → List (Hooks Ctx A R F W)
      → List (Hooks Ctx A R F W)
  unfolding default_pre_create_hook combine_container_hooks
  hooks_of d forwarded user =
      combine_container_hooks
        ((d.logging ∷ default_pre_create_hook d.mounts ∷ d.copying ∷ d.consuming ∷ d.readiness ∷ [])
          ++ forwarded)
        user
      ∷ []

  unfoldable pub made_or_error :
      Made Signal (List (Hooks Ctx A R F W))
      → Option Error × Held (Setup R W)
      → Result (Made Signal (List (Hooks Ctx A R F W))) × Live W
  made_or_error m (some e, (c, (i, l))) = (err e, l)
  made_or_error m (none, (c, (i, l))) = (ok (record m { container = c }), l)

  -- The hooks after the creation.
  unfoldable pub created_stage :
      Ctx
      → Inputs R
      → Made Signal (List (Hooks Ctx A R F W))
      → Try (Live W) (Made Signal (List (Hooks Ctx A R F W)))
  unfolding run_stage made_or_error
  created_stage ctx i m l =
      made_or_error m (run_stage K m.hooks ctx false (λ h. h.post_creates) (m.container, (i, l)))

  -- From the networks on.
  unfoldable pub network_stage :
      Ctx
      → ContainerRequest A R F
      → String
      → Option Signal
      → List (Hooks Ctx A R F W)
      → Inputs R
      → String
      → Try (Live W) (Made Signal (List (Hooks Ctx A R F W)))
  unfolding ◌>>◌ connect_networks other_networks container_of created_stage
  network_stage ctx req image signal hooks i id = do
    connect_networks D S ctx id req.network_aliases (other_networks req.networks)
    created_stage ctx i (container_of S.session_id req id image signal hooks)

  -- What follows the hooks before the creation.
  unfoldable pub after_creating :
      Ctx
      → ContainerRequest A R F
      → String
      → Option Platform
      → Option Signal
      → List (Hooks Ctx A R F W)
      → Option Error × Held (Setup R W)
      → Result (Made Signal (List (Hooks Ctx A R F W))) × Live W
  unfolding ◌>>=◌ create_call network_stage
  after_creating ctx req image platform signal hooks (some e, (c, (i, l))) = (err e, l)
  after_creating ctx req image platform signal hooks (none, (c, (i, l))) =
      (do id ← create_call S ctx req.name platform i; network_stage ctx req image signal hooks i id)
        l

  -- From the hooks before the creation on.
  unfoldable pub hooked_creation :
      Ctx
      → Defaults Ctx A R F W
      → List (Hooks Ctx A R F W)
      → ContainerRequest A R F
      → Option Signal
      → String × Option Platform
      → List (Hooks Ctx A R F W)
      → Try (Live W) (Made Signal (List (Hooks Ctx A R F W)))
  unfolding inputs_of env_list labels_of hooks_of creating_hook after_creating
  hooked_creation ctx d user req signal (image, platform) forwarded l =
      let labels = labels_of (S.is_reaper_image req.image) S.default_labels req in
      let hooks = hooks_of d forwarded user in
      let labeled = with_labels labels req in
      after_creating ctx labeled image platform signal hooks (
        creating_hook hooks ctx labeled
          (no_container, (inputs_of labeled image (env_list req.env) labels, l)))

  unfoldable pub forwarded_creation :
      Ctx
      → Defaults Ctx A R F W
      → List (Hooks Ctx A R F W)
      → ContainerRequest A R F
      → Option Signal
      → String × Option Platform
      → Try (Live W) (Made Signal (List (Hooks Ctx A R F W)))
  unfolding ◌>>=◌ forwarding hooked_creation
  forwarded_creation ctx d user req signal image = do
    forwarded ← forwarding ctx d.expose_host_ports
    hooked_creation ctx d user req signal image forwarded

  -- The hub of the configuration is asked after the user's substitutors.
  unfoldable pub substituted_image :
      Ctx → List ImageSubstitutor → ContainerRequest A R F → Try (Live W) (String × Option Platform)
  unfolding outside image_of all_substitutors prepend_hub_registry
  substituted_image ctx substitutors req l =
      outside
        (image_of G permanent_client_errors ctx
          (all_substitutors substitutors
            (prepend_hub_registry S.join S.registry l.0.hub_image_name_prefix))
          req)
        l

  unfoldable pub imaged_creation :
      Ctx
      → Defaults Ctx A R F W
      → List (Hooks Ctx A R F W)
      → List ImageSubstitutor
      → ContainerRequest A R F
      → Option Signal
      → Try (Live W) (Made Signal (List (Hooks Ctx A R F W)))
  unfolding ◌>>=◌ substituted_image forwarded_creation
  imaged_creation ctx d user substitutors req signal = do
    image ← substituted_image ctx substitutors req
    forwarded_creation ctx d user req signal image

  -- What the signal is deferred for.
  unfoldable pub creation :
      Ctx
      → Defaults Ctx A R F W
      → List (Hooks Ctx A R F W)
      → List ImageSubstitutor
      → ContainerRequest A R F
      → Option Signal
      → Try (Live W) (Made Signal (List (Hooks Ctx A R F W)))
  unfolding ◌>>◌ checked at_once validate imaged_creation
  creation ctx d user substitutors req signal = do
    checked (λ l. (validate req, l))
    imaged_creation ctx d user substitutors req signal

  unfoldable pub connected_creation :
      Ctx
      → Defaults Ctx A R F W
      → List (Hooks Ctx A R F W)
      → List ImageSubstitutor
      → ContainerRequest A R F
      → Try (Live W) (Made Signal (List (Hooks Ctx A R F W)))
  unfolding ◌>>=◌ with_networks container_signal on_error send_signal creation
  connected_creation ctx d user substitutors req l =
      (do
        signal ← container_signal P ctx (S.is_reaper_image req.image)
        on_error (send_signal P signal)
            (creation ctx d user substitutors (with_networks req l.0) signal))
        l

  -- `CreateContainer`
  unfoldable pub create_container :
      Ctx
      → Defaults Ctx A R F W
      → List (Hooks Ctx A R F W)
      → List ImageSubstitutor
      → ContainerRequest A R F
      → Try (Live W) (Made Signal (List (Hooks Ctx A R F W)))
  unfolding ◌>>◌ finally at_world ensure_default_network connected_creation
  create_container ctx d user substitutors req = finally (at_world D.close) (do
    ensure_default_network D S.default_labels ctx
    connected_creation ctx d user substitutors req)
