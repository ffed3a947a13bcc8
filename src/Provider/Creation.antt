-- ===== src/Provider/Creation.antt =====
-- docker.go, CreateContainer: from the request to a container that the daemon created.
-- The hooks act on the container, on what the daemon is given, on the provider and on the world.
use testcontainers_go.Base.{
  String, ◌<>◌, ◌=s◌, mem_text, Bool, false, ◌&&◌, not, Option, none, List, [], ◌∷◌, ◌++◌, map,
  if◌then◌else◌, M,
}
use testcontainers_go.Base.Dict.{Dict, insert_all, lookup}
use testcontainers_go.Errors.{Error, wrap, followed, Result, ok, err}
use testcontainers_go.Errors.Flow.{Try, ◌>>◌, done, wrapped, checked}
use testcontainers_go.Lifecycle.{ContainerLifecycleHooks}
use testcontainers_go.Container.{DockerContainer, Live as Held}
use testcontainers_go.Request.{
  ContainerRequest, ContainerConfig, empty_host_config, should_build_image, should_keep_built_image,
}
use testcontainers_go.Provider.{DockerProvider, Daemon, NetworkResource, Live, outside, get_network}
use testcontainers_go.Provider.Reaping.{Reaping, connected}
use testcontainers_go.Provider.PreCreate.{Inputs, Setup, or_no_aliases}

-- What `CreateContainer` makes: the container, the channel that ends its connection to the reaper,
-- and its hooks, of the type `H`.
pub record Made (Signal H : Type 0) : Type 0 where
  pub container : DockerContainer
  pub exposed_ports : List String
  pub termination_signal : Option Signal
  pub hooks : H

-- The networks of a container, to which a default one that is not the bridge is added.
unfoldable pub attached : DockerProvider → List String → List String
attached p networks =
    if not (p.default_network =s p.default_bridge_network_name)
      && not (mem_text p.default_network networks)
    then networks ++ p.default_network ∷ []
    else networks

unfoldable pub env_list : Dict String → List String
env_list env = map (λ kv. kv.0 <> ("=" <> kv.1)) env

module _ {A R F : Type 0} where
  unfoldable pub docker_input_of :
      ContainerRequest A R F → String → List String → Dict String → ContainerConfig
  docker_input_of req image env labels = record {
    entrypoint = req.entrypoint;
    image = image;
    env = env;
    labels = labels;
    cmd = req.cmd;
    hostname = req.hostname;
    user = req.user;
    working_dir = req.working_dir;
    exposed_ports = [];
  }

  unfoldable pub inputs_of : ContainerRequest A R F → String → List String → Dict String → Inputs R
  unfolding docker_input_of
  inputs_of req image env labels = record {
    docker_input = docker_input_of req image env labels;
    host_config = record empty_host_config {
      privileged = req.privileged;
      shm_size = req.shm_size;
      tmpfs = req.tmpfs;
    };
    networking_config = [];
  }

  -- The reaper does not need a reaper; its labels are its own.
  unfoldable pub labels_of : Bool → Dict String → ContainerRequest A R F → Dict String
  unfolding insert_all
  labels_of is_reaper_container default_labels req =
      if not is_reaper_container then insert_all default_labels req.labels else req.labels

  abbrev pub with_labels : Dict String → ContainerRequest A R F → ContainerRequest A R F
  with_labels labels req = record req { labels = labels }

  unfoldable pub with_networks : ContainerRequest A R F → DockerProvider → ContainerRequest A R F
  unfolding attached
  with_networks req p = record req { networks = attached p req.networks }

  unfoldable pub container_of :
      {Signal H : Type 0}
      → String
      → ContainerRequest A R F
      → String
      → String
      → Option Signal
      → H
      → Made Signal H
  unfolding should_build_image should_keep_built_image
  container_of session_id req id image signal hooks = record {
    container = record {
      id = id;
      image = image;
      image_was_built = should_build_image req;
      keep_built_image = should_keep_built_image req;
      session_id = session_id;
      is_running = false;
    };
    exposed_ports = req.exposed_ports;
    termination_signal = signal;
    hooks = hooks;
  }

-- What the provider keeps for the length of a session, and two more calls of the client.
-- `is_reaper_image` is `strings.HasSuffix(…, config.ReaperDefaultImage)`; `join` is `url.JoinPath`,
-- and `registry` is `core.ExtractRegistry` with the empty fallback.
pub record Session (Ctx R Platform W : Type 0) : Type 0 where
  pub session_id : String
  pub default_labels : Dict String
  pub is_reaper_image : String → Bool
  pub join : String → String → Result String
  pub registry : String → String
  pub container_create : Ctx → Inputs R → Option Platform → String → Try W String
  pub network_connect : Ctx → String → String → List String → M W (Option Error)

module _ {Ctx I R Platform W : Type 0} (D : Daemon Ctx I W) (S : Session Ctx R Platform W) where
  unfoldable pub connect_network :
      Ctx → String → List String → Result NetworkResource × Live W → Result Unit × Live W
  unfolding wrapped checked outside
  connect_network ctx id aliases (err e, l) = (ok tt, l)
  connect_network ctx id aliases (ok nw, l) =
      wrapped (wrap "network connect") (checked (outside (S.network_connect ctx nw.id id aliases)))
        l

  -- The networks behind the first one; one that cannot be inspected is passed over.
  unfoldable pub connect_networks :
      Ctx → String → Dict (List String) → List String → Try (Live W) Unit
  unfolding ◌>>◌ connect_network get_network or_no_aliases lookup
  connect_networks ctx id aliases [] = done tt
  connect_networks ctx id aliases (n ∷ ns) = do
    λ l. connect_network ctx id (or_no_aliases (lookup n aliases)) (get_network D ctx n l)
    connect_networks ctx id aliases ns

unfoldable pub other_networks : List String → List String
other_networks [] = []
other_networks (n ∷ ns) = ns

unfoldable pub create_call :
    {Ctx R Platform W : Type 0}
    → Session Ctx R Platform W
    → Ctx
    → String
    → Option Platform
    → Inputs R
    → Try (Live W) String
unfolding wrapped outside
create_call S ctx name platform i =
    wrapped (wrap "container create") (outside (S.container_create ctx i platform name))

unfoldable pub container_signal :
    {Ctx Reaper Signal W : Type 0}
    → Reaping Ctx Reaper Signal W
    → Ctx
    → Bool
    → Try (Live W) (Option Signal)
unfolding connected
container_signal P ctx is_reaper_container l =
    if not l.0.ryuk_disabled && not is_reaper_container
    then connected P ctx (λ e. followed e "creating reaper failed")
        (λ e. followed e "connecting to reaper failed") l
    else (ok none, l)

-- The hooks of a container that is being created.
abbrev pub Hooks : Type 0 → Type 0 → Type 0 → Type 0 → Type 0 → Type 0
Hooks Ctx A R F W = ContainerLifecycleHooks Ctx (ContainerRequest A R F) (Held (Setup R W))

-- A request hook where there is no container yet.
abbrev pub no_container : DockerContainer
no_container = record {
  id = "";
  image = "";
  image_was_built = false;
  keep_built_image = false;
  session_id = "";
  is_running = false;
}

unfoldable pub without_container : {S : Type 0} → M S (Option Error) → M (Held S) (Option Error)
without_container m (c, s) = let (e, s') = m s in (e, (c, s'))
