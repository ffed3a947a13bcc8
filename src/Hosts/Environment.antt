-- ===== src/Hosts/Environment.antt =====
-- internal/core: what the search for a docker host reads, and the errors that it reports.
use testcontainers_go.Base.{ℕ, String, Bool, any, Option, none, some, List, [], ◌∷◌}
use testcontainers_go.Errors.{Error, Result, is}
use testcontainers_go.Config.{Config}

-- What resolving a host reads: the environment, the file system, the user, the configuration, the
-- context's value, `url.Parse` as a scheme and a path, `filepath.Join`, and the answer of a daemon
-- at an address.
pub record Machine : Type 0 where
  pub look_up_env : String → Option String
  pub file_exists : String → Bool
  pub user_home_dir : Result String
  pub uid : ℕ
  pub runtime_windows : Bool
  pub config : Config
  pub context_host : Option String
  pub parse : String → Result (String × String)
  pub join_path : List String → String
  pub check_host : String → Option Error
  pub docker_socket_path : String
  pub schema : String

abbrev pub err_docker_host_not_set : String
err_docker_host_not_set = "DOCKER_HOST is not set"

abbrev pub err_socket_override_not_set : String
err_socket_override_not_set = "TESTCONTAINERS_DOCKER_SOCKET_OVERRIDE is not set"

abbrev pub err_socket_not_set_in_context : String
err_socket_not_set_in_context = "socket not set in context"

abbrev pub err_socket_not_set_in_properties : String
err_socket_not_set_in_properties = "socket not set in ~/.testcontainers.properties"

abbrev pub err_no_unix_schema : String
err_no_unix_schema = "URL schema is not unix"

abbrev pub err_socket_not_found : String
err_socket_not_found = "socket not found"

abbrev pub err_socket_not_found_in_path : String
err_socket_not_found_in_path = "docker socket not found in /var/run/docker.sock"

abbrev pub err_host_not_set_in_properties : String
err_host_not_set_in_properties = "tc.host not set in ~/.testcontainers.properties"

abbrev pub err_rootless_not_found : String
err_rootless_not_found = "rootless Docker not found"

abbrev pub err_not_found_home_desktop_dir : String
err_not_found_home_desktop_dir = "checked path: ~/.docker/desktop/docker.sock"

abbrev pub err_not_found_home_run_dir : String
err_not_found_home_run_dir = "checked path: ~/.docker/run/docker.sock"

abbrev pub err_not_found_run_dir : String
err_not_found_run_dir = "checked path: /run/user/${uid}/docker.sock"

abbrev pub err_not_found_xdg_runtime_dir : String
err_not_found_xdg_runtime_dir = "checked path: $XDG_RUNTIME_DIR"

abbrev pub err_not_supported_windows : String
err_not_supported_windows = "rootless Docker is not supported on Windows"

abbrev pub err_xdg_runtime_dir_not_set : String
err_xdg_runtime_dir_not_set = "XDG_RUNTIME_DIR is not set"

-- The errors that say only that a source is not set, in the order of the switch.
abbrev pub not_set_errors : List String
not_set_errors =
    err_host_not_set_in_properties ∷ err_docker_host_not_set ∷ err_socket_not_set_in_context
    ∷ err_socket_not_set_in_properties ∷ err_socket_not_found_in_path ∷ err_xdg_runtime_dir_not_set
    ∷ err_not_found_home_run_dir ∷ err_not_found_home_desktop_dir ∷ err_not_found_run_dir ∷ []

unfoldable pub is_host_not_set : Error → Bool
unfolding is
is_host_not_set e = any (is e) not_set_errors

-- `os.Getenv`
unfoldable pub or_unset : Option String → String
or_unset none = ""
or_unset (some s) = s
