-- ===== src/Tests/Settings.antt =====
-- container.go, docker_mounts.go, internal/config and internal/core: the theorems on requests,
-- mounts, the configuration and the docker host, at concrete ones.
use testcontainers_go.Base.{
  ℕ, ◌≡◌, refl, ◌↔◌, String, ◌<>◌, ◌=s◌, true, false, Option, none, some, List, [], ◌∷◌,
  if◌then◌else◌, arith, =s_iff,
}
use testcontainers_go.Errors.{Error, ok, err, new, same, joined, cons, nil, wrap}
use testcontainers_go.Mounts.{
  ContainerMount, DockerMount, docker_volume, bind_mount, volume_mount, map_to_docker_mounts,
}
use testcontainers_go.Mounts.Laws.{known, Agree, map_to_docker_mounts-Agree}
use testcontainers_go.Request.{ContainerRequest, validate_mounts}
use testcontainers_go.Request.Validation.{HasFreshTargets, validate_mounts_lem}
use testcontainers_go.Config.{Config, Surroundings, empty_config, read}
use testcontainers_go.Config.Laws.{read-truthy_disables_nothing}
use testcontainers_go.Hosts.Environment.{Machine, err_socket_not_found}
use testcontainers_go.Hosts.{extract_docker_host, docker_host_sources}
use testcontainers_go.Hosts.Laws.{
  FirstUsable, extract_docker_host_ok, IsJoined, extract_docker_host-IsJoined,
}

abbrev two_mounts : List ContainerMount
two_mounts = bind_mount "/tmp" "/data" ∷ volume_mount "cache" "/cache" ∷ []

abbrev two_docker_mounts : List DockerMount
two_docker_mounts =
    record {
      type = "bind";
      source = "/tmp";
      target = "/data";
      read_only = false;
      volume_options = none;
      tmpfs_options = none;
    }
    ∷ record {
      type = "volume";
      source = "cache";
      target = "/cache";
      read_only = false;
      volume_options = some (record { labels = some (("lang", "go") ∷ []) });
      tmpfs_options = none;
    }
    ∷ []

map_to_docker_mounts-Agree_example : Agree (known two_mounts) two_docker_mounts
unfolding map_to_docker_mounts bind_mount volume_mount
map_to_docker_mounts-Agree_example =
    map_to_docker_mounts-Agree (("lang", "go") ∷ []) two_mounts two_docker_mounts refl

abbrev unlabeled : ContainerMount
unlabeled = record {
  source = docker_volume "cache" (some (record { labels = none }));
  target = "/cache";
  read_only = false;
}

abbrev pub request : ContainerRequest ℕ ℕ ℕ
request = record {
  from_dockerfile = record {
    context = "";
    context_archive = none;
    dockerfile = "";
    repo = "";
    tag = "";
    keep_image = false;
  };
  image = "redis:7";
  mounts = two_mounts;
  host_config_modifier = some (λ hc. record hc { binds = "/srv:/srv" ∷ [] });
  auto_remove = false;
  cap_add = [];
  cap_drop = [];
  binds = [];
  extra_hosts = [];
  network_mode = "bridge";
  resources = none;
  entrypoint = [];
  env = ("LANG", "C") ∷ [];
  exposed_ports = "6379/tcp" ∷ [];
  cmd = [];
  labels = [];
  tmpfs = [];
  name = "cache";
  hostname = "";
  working_dir = "";
  privileged = false;
  networks = [];
  network_aliases = [];
  files = [];
  user = "";
  always_pull_image = false;
  image_platform = "";
  shm_size = 0;
  config_modifier = none;
  endpoint_settings_modifier = none;
}

validate_mounts_lem_example : (validate_mounts request ≡ none) ↔ HasFreshTargets request
validate_mounts_lem_example = validate_mounts_lem request

abbrev home_config : Config
home_config = record empty_config { ryuk_disabled = true; host = "tcp://docker:2375" }

-- A home with a properties file, under an environment.
abbrev surroundings : (String → String) → Surroundings ℕ
surroundings env = record {
  get_env = env;
  parse_duration = λ s. if s =s "1s" then some 1000000000 else none;
  user_home_dir = ok "/root";
  load_file = λ path. ok 1;
  decode = λ file old. (home_config, true);
}

abbrev slash : String → String → String
slash a b = a <> "/" <> b

abbrev one_env : String → String
one_env k = if k =s "TESTCONTAINERS_RYUK_DISABLED" then "1" else ""

read-truthy_disables_nothing_example : (read (surroundings one_env) slash).ryuk_disabled ≡ false
read-truthy_disables_nothing_example =
    read-truthy_disables_nothing (surroundings one_env) slash "1" refl refl
      (λ e. ground (arith, (=s_iff "1" "true").1 e))

-- A machine without any daemon but the one of DOCKER_HOST, if a daemon answers there.
abbrev machine : (String → Option Error) → Machine
machine check = record {
  look_up_env = λ k. if k =s "DOCKER_HOST" then some "tcp://docker:2375" else none;
  file_exists = λ f. false;
  user_home_dir = ok "/root";
  uid = 0;
  runtime_windows = false;
  config = empty_config;
  context_host = none;
  parse = λ s. err (new "no scheme");
  join_path = λ parts. "";
  check_host = check;
  docker_socket_path = "/var/run/docker.sock";
  schema = "unix://";
}

extract_docker_host_ok_example :
    (extract_docker_host (machine (λ h. none)) ≡ ok "tcp://docker:2375")
    ↔ FirstUsable
        (machine (λ h. none))
        (docker_host_sources (machine (λ h. none)))
        "tcp://docker:2375"
extract_docker_host_ok_example = extract_docker_host_ok (machine (λ h. none)) "tcp://docker:2375"

abbrev unreachable_err : String → Option Error
unreachable_err h = some (new "connection refused")

-- What is reported where no daemon answers.
abbrev two_reports : Error
two_reports = joined (
    cons (wrap "check host \"tcp://docker:2375\"" (new "connection refused"))
      (cons (new "rootless Docker not found") nil))

extract_docker_host-IsJoined_example :
    IsJoined two_reports × (same two_reports err_socket_not_found ≡ false)
unfolding extract_docker_host
extract_docker_host-IsJoined_example =
    extract_docker_host-IsJoined (machine unreachable_err) two_reports refl
