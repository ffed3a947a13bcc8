-- ===== src/Hosts.antt =====
-- internal/core/docker_host.go, docker_rootless.go, docker_socket.go: where the Docker daemon is.
pub mod Laws
pub mod Environment
pub mod Cached
use testcontainers_go.Base.{
  ℕ, String, ◌<>◌, ◌=s◌, mem_text, decimal, has_prefix, replace_first, Bool, true, false, not, ◌||◌,
  any, Option, none, some, List, [], ◌∷◌, ◌++◌, map, if◌then◌else◌, is_none,
}
use testcontainers_go.Errors.{
  Error, new, quoted, wrap, Result, ok, err, is, join, Errors, nil, cons,
}
use testcontainers_go.Config.{Config}
use testcontainers_go.Hosts.Environment.{
  err_docker_host_not_set, err_socket_override_not_set, err_socket_not_set_in_context,
  err_socket_not_set_in_properties, err_no_unix_schema, err_socket_not_found,
  err_socket_not_found_in_path, err_host_not_set_in_properties, err_rootless_not_found,
  err_not_found_home_desktop_dir, err_not_found_home_run_dir, err_not_found_run_dir,
  err_not_found_xdg_runtime_dir, err_not_supported_windows, err_xdg_runtime_dir_not_set,
  not_set_errors, Machine, is_host_not_set, or_unset,
}

-- `parseURL`, after `url.Parse`.
unfoldable pub host_of_url : String → Result (String × String) → Result String
host_of_url s (err e) = err e
host_of_url s (ok (scheme, path)) =
    if (scheme =s "unix") || (scheme =s "npipe")
    then ok path
    else if scheme =s "tcp"
    then ok s
    else err (new err_no_unix_schema)

-- `if len(errs) > 0 { return "", errors.Join(errs...) }; return "", none_found`
unfoldable pub all_failed : List Error → String → Result String
unfolding join
all_failed errs sentinel = elim (join (map some errs)) [
  | none ↦ err (new sentinel)
  | some e ↦ err e
]

-- `if !isHostNotSet(err) { errs = append(errs, err) }`
unfoldable pub note_error : Error → List Error → List Error
unfolding is_host_not_set
note_error e errs = if is_host_not_set e then errs else errs ++ (e ∷ [])

-- The loop over the rootless sources: the first that answers wins.
unfoldable pub first_socket : String → List (Result String) → List Error → Result String
unfolding note_error all_failed
first_socket schema [] errs = all_failed errs err_rootless_not_found
first_socket schema (ok s ∷ rs) errs = ok (schema <> s)
first_socket schema (err e ∷ rs) errs = first_socket schema rs (note_error e errs)

module _ (m : Machine) where
  unfoldable pub parse_url : String → Result String
  unfolding host_of_url
  parse_url s = host_of_url s (m.parse s)

  unfoldable pub is_windows : Bool
  unfolding or_unset
  is_windows = (or_unset (m.look_up_env "GOOS") =s "windows") || m.runtime_windows

  unfoldable pub file_or : String → String → Result String
  file_or f sentinel = if m.file_exists f then ok f else err (new sentinel)

  unfoldable pub rootless_socket_path_from_env : Result String
  unfolding file_or
  rootless_socket_path_from_env = elim (m.look_up_env "XDG_RUNTIME_DIR") [
    | none ↦ err (new err_xdg_runtime_dir_not_set)
    | some dir ↦ file_or (m.join_path (dir ∷ "docker.sock" ∷ [])) err_not_found_xdg_runtime_dir
  ]

  unfoldable pub rootless_socket_path_from_home_run_dir : Result String
  unfolding file_or
  rootless_socket_path_from_home_run_dir = elim m.user_home_dir [
    | err e ↦ err e
    | ok home ↦
        file_or (m.join_path (home ∷ ".docker" ∷ "run" ∷ "docker.sock" ∷ []))
          err_not_found_home_run_dir
  ]

  unfoldable pub rootless_socket_path_from_home_desktop_dir : Result String
  unfolding file_or
  rootless_socket_path_from_home_desktop_dir = elim m.user_home_dir [
    | err e ↦ err e
    | ok home ↦
        file_or (m.join_path (home ∷ ".docker" ∷ "desktop" ∷ "docker.sock" ∷ []))
          err_not_found_home_desktop_dir
  ]

  unfoldable pub rootless_socket_path_from_run_dir : Result String
  unfolding file_or decimal
  rootless_socket_path_from_run_dir =
      file_or (m.join_path ("/run" ∷ "user" ∷ decimal m.uid ∷ "docker.sock" ∷ []))
        err_not_found_run_dir

  unfoldable pub rootless_sources : List (Result String)
  unfolding rootless_socket_path_from_env rootless_socket_path_from_home_run_dir
      rootless_socket_path_from_home_desktop_dir rootless_socket_path_from_run_dir
  rootless_sources =
      rootless_socket_path_from_env ∷ rootless_socket_path_from_home_run_dir
      ∷ rootless_socket_path_from_home_desktop_dir ∷ rootless_socket_path_from_run_dir ∷ []

  unfoldable pub rootless_docker_socket_path : Result String
  unfolding is_windows first_socket rootless_sources
  rootless_docker_socket_path =
      if is_windows
      then err (new err_not_supported_windows)
      else first_socket m.schema rootless_sources []

  unfoldable pub testcontainers_host_from_properties : Result String
  unfolding parse_url
  testcontainers_host_from_properties =
      if m.config.testcontainers_host =s ""
      then err (new err_host_not_set_in_properties)
      else parse_url m.config.testcontainers_host

  unfoldable pub docker_host_from_env : Result String
  unfolding or_unset
  docker_host_from_env =
      let host = or_unset (m.look_up_env "DOCKER_HOST") in
      if host =s "" then err (new err_docker_host_not_set) else ok host

  unfoldable pub docker_host_from_context : Result String
  unfolding parse_url or_unset
  docker_host_from_context =
      let socket = or_unset m.context_host in
      if socket =s "" then err (new err_socket_not_set_in_context) else parse_url socket

  unfoldable pub docker_socket_path : Result String
  docker_socket_path =
      if m.file_exists m.docker_socket_path
      then ok (m.schema <> m.docker_socket_path)
      else err (new err_socket_not_found_in_path)

  unfoldable pub docker_host_from_properties : Result String
  docker_host_from_properties =
      if m.config.host =s "" then err (new err_socket_not_set_in_properties) else ok m.config.host

  unfoldable pub docker_socket_override_path : Result String
  docker_socket_override_path = elim (m.look_up_env "TESTCONTAINERS_DOCKER_SOCKET_OVERRIDE") [
    | none ↦ err (new err_socket_override_not_set)
    | some path ↦ ok path
  ]

  -- The sources in the order in which they are asked.
  unfoldable pub docker_host_sources : List (Result String)
  unfolding testcontainers_host_from_properties docker_host_from_env docker_host_from_context
      docker_socket_path docker_host_from_properties rootless_docker_socket_path
  docker_host_sources =
      testcontainers_host_from_properties ∷ docker_host_from_env ∷ docker_host_from_context
      ∷ docker_socket_path ∷ docker_host_from_properties ∷ rootless_docker_socket_path ∷ []

  -- The loop of `extractDockerHost`.
  unfoldable pub first_host : List (Result String) → List Error → Result String
  unfolding note_error all_failed
  first_host [] errs = all_failed errs err_socket_not_found
  first_host (err e ∷ rs) errs = first_host rs (note_error e errs)
  first_host (ok host ∷ rs) errs = elim (m.check_host host) [
    | none ↦ ok host
    | some e ↦ first_host rs (errs ++ (wrap ("check host \"" <> host <> "\"") e ∷ []))
  ]

  unfoldable pub extract_docker_host : Result String
  unfolding first_host docker_host_sources
  extract_docker_host = first_host docker_host_sources []

-- A text, or a panic with an error.
pub data Extracted : Type 0 where
  socket : String → Extracted
  panic : Error → Extracted

abbrev pub windows_docker_socket_path : String
windows_docker_socket_path = "//var/run/docker.sock"

module _ (m : Machine) where
  -- `checkDockerSocketFn`
  unfoldable pub check_docker_socket : String → String
  unfolding replace_first
  check_docker_socket s =
      if has_prefix s "tcp://"
      then m.docker_socket_path
      else if has_prefix s m.schema
      then replace_first s m.schema ""
      else s

  unfoldable pub socket_of_host : Result String → Extracted
  unfolding check_docker_socket
  socket_of_host (err e) = panic e
  socket_of_host (ok host) = socket (check_docker_socket host)

  -- From the daemon's answer on: `ok` has its operating system.
  unfoldable pub socket_of_info : Result String → Extracted
  unfolding socket_of_host extract_docker_host is_windows
  socket_of_info (err e) = panic e
  socket_of_info (ok os) =
      if os =s "Docker Desktop"
      then socket (if is_windows m then windows_docker_socket_path else m.docker_socket_path)
      else socket_of_host (extract_docker_host m)

  unfoldable pub socket_or : Result String → Extracted → Extracted
  unfolding check_docker_socket
  socket_or (ok s) rest = socket (check_docker_socket s)
  socket_or (err e) rest = rest

  unfoldable pub extract_docker_socket_from_client : Result String → Extracted
  unfolding socket_or socket_of_info testcontainers_host_from_properties docker_socket_override_path
  extract_docker_socket_from_client info =
      socket_or (testcontainers_host_from_properties m)
        (socket_or (docker_socket_override_path m) (socket_of_info info))
