-- ===== src/Reaper/Requests.antt =====
-- reaper.go: the request for the container of a reaper, and the filters by which it is looked up.
pub mod Matching
use testcontainers_go.Base.{
  ℕ, String, ◌<>◌, Bool, true, false, Option, none, some, List, [], ◌∷◌, ◌++◌, if◌then◌else◌, ltb,
}
use testcontainers_go.Base.Dict.{Dict, insert}
use testcontainers_go.Config.{Config}
use testcontainers_go.Labels.{default_labels, label_session_id, label_reaper, label_ryuk}
use testcontainers_go.Request.{FromDockerfile, HostConfig, ContainerRequest}

abbrev pub reaper_default_image : String
reaper_default_image = "testcontainers/ryuk:0.9.0"

abbrev pub listening_port : String
listening_port = "8080/tcp"

unfoldable pub reaper_container_name : String → String
reaper_container_name session_id = "reaper_" <> session_id

-- The list options of the look-up.
pub record ListOptions : Type 0 where
  pub all : Bool
  pub labels : List (String × String)
  pub name : String

unfoldable pub look_up_options : String → ListOptions
unfolding reaper_container_name
look_up_options session_id = record {
  all = true;
  labels = (label_session_id, session_id) ∷ (label_reaper, "true") ∷ (label_ryuk, "true") ∷ [];
  name = reaper_container_name session_id;
}

-- `FromDockerfile{}`
abbrev pub no_dockerfile : {A : Type 0} → FromDockerfile A
no_dockerfile = record {
  context = "";
  context_archive = none;
  dockerfile = "";
  repo = "";
  tag = "";
  keep_image = false;
}

unfoldable pub set_if : Bool → String → String → Dict String → Dict String
unfolding insert
set_if b k v env = if b then insert k v env else env

-- `text` is `Duration.String`.
unfoldable pub reaper_env : (ℕ → String) → Config → Dict String
unfolding set_if
reaper_env text c = set_if c.ryuk_verbose "RYUK_VERBOSE" "true" (
    set_if (ltb 0 c.ryuk_reconnection_timeout) "RYUK_RECONNECTION_TIMEOUT"
      (text c.ryuk_reconnection_timeout)
      (set_if (ltb 0 c.ryuk_connection_timeout) "RYUK_CONNECTION_TIMEOUT"
        (text c.ryuk_connection_timeout) []))

unfoldable pub reaper_labels : String → Dict String
unfolding insert default_labels
reaper_labels session_id =
    insert label_ryuk "true" (insert label_reaper "true" (default_labels session_id))

unfoldable pub reaper_host_config : {R : Type 0} → String → HostConfig R → HostConfig R
reaper_host_config socket h = record h {
  auto_remove = true;
  binds = (socket <> ":/var/run/docker.sock") ∷ [];
  network_mode = "bridge";
}

-- The networks of a DockerProvider are its default network; another provider adds none.
unfoldable pub provider_networks : Option String → List String
provider_networks none = []
provider_networks (some n) = n ∷ []

-- The request of `newReaper`: `socket` is what MustExtractDockerSocket gives, and `default_network`
-- is that of a DockerProvider.
unfoldable pub reaper_request :
    {A R F : Type 0}
    → (ℕ → String)
    → Config
    → String
    → String
    → Option String
    → ContainerRequest A R F
unfolding reaper_env reaper_labels reaper_host_config reaper_container_name provider_networks
reaper_request text c session_id socket default_network = record {
  from_dockerfile = no_dockerfile;
  image = reaper_default_image;
  mounts = [];
  host_config_modifier = some (reaper_host_config socket);
  auto_remove = false;
  cap_add = [];
  cap_drop = [];
  binds = [];
  extra_hosts = [];
  network_mode = "";
  resources = none;
  entrypoint = [];
  env = reaper_env text c;
  exposed_ports = listening_port ∷ [];
  cmd = [];
  labels = reaper_labels session_id;
  tmpfs = [];
  name = reaper_container_name session_id;
  hostname = "";
  working_dir = "";
  privileged = c.ryuk_privileged;
  networks = provider_networks default_network;
  network_aliases = [];
  files = [];
  user = "";
  always_pull_image = false;
  image_platform = "";
  shm_size = 0;
  config_modifier = none;
  endpoint_settings_modifier = none;
}
