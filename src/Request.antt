-- ===== src/Request.antt =====
-- container.go: a request for a container, and its validation.
pub mod Validation
use Prim.Native.Char.{Char, code}
use Prim.Native.String
use testcontainers_go.Base.{
  ℕ, String, ◌<>◌, ◌=s◌, mem_text, Bool, true, false, ◌&&◌, ◌||◌, not, is_none, Option, none, some,
  List, [], ◌∷◌, ◌==◌, if◌then◌else◌,
}
use testcontainers_go.Errors.{Error, new, followed, Result, ok, err}
use testcontainers_go.Mounts.{ContainerMount, DockerMount}
use testcontainers_go.Base.Dict.{Dict}

-- `ContainerFile`: `F` is the type of readers.
pub record ContainerFile (F : Type 0) : Type 0 where
  pub host_file_path : String
  pub reader : Option F
  pub container_file_path : String
  pub file_mode : ℕ

-- `container.Config` of the Docker library, as far as the program sets it.
pub record ContainerConfig : Type 0 where
  pub entrypoint : List String
  pub image : String
  pub env : List String
  pub labels : Dict String
  pub cmd : List String
  pub hostname : String
  pub user : String
  pub working_dir : String
  pub exposed_ports : List String

-- `network.EndpointSettings`, as far as the program sets it.
pub record EndpointSettings : Type 0 where
  pub aliases : List String
  pub network_id : String

-- `container.HostConfig` of the Docker library, as far as the program sets it; `R` is its type of
-- resources.
pub record HostConfig (R : Type 0) : Type 0 where
  pub auto_remove : Bool
  pub cap_add : List String
  pub cap_drop : List String
  pub binds : List String
  pub extra_hosts : List String
  pub network_mode : String
  pub resources : Option R
  pub privileged : Bool
  pub shm_size : ℕ
  pub tmpfs : Dict String
  pub mounts : List DockerMount
  pub port_bindings : Dict (List (String × String))

-- `container.HostConfig{}`
abbrev pub empty_host_config : {R : Type 0} → HostConfig R
empty_host_config = record {
  auto_remove = false;
  cap_add = [];
  cap_drop = [];
  binds = [];
  extra_hosts = [];
  network_mode = "";
  resources = none;
  privileged = false;
  shm_size = 0;
  tmpfs = [];
  mounts = [];
  port_bindings = [];
}

-- `FromDockerfile`: `A` is the type of archives.
pub record FromDockerfile (A : Type 0) : Type 0 where
  pub context : String
  pub context_archive : Option A
  pub dockerfile : String
  pub repo : String
  pub tag : String
  pub keep_image : Bool

-- `ContainerRequest`, without its hooks, its substitutors, its wait strategy and its log consumers,
-- which are arguments where they are used. A nil map is the empty one.
pub record ContainerRequest (A R F : Type 0) : Type 0 where
  pub from_dockerfile : FromDockerfile A
  pub image : String
  pub mounts : List ContainerMount
  pub host_config_modifier : Option (HostConfig R → HostConfig R)
  pub auto_remove : Bool
  pub cap_add : List String
  pub cap_drop : List String
  pub binds : List String
  pub extra_hosts : List String
  pub network_mode : String
  pub resources : Option R
  pub entrypoint : List String
  pub env : Dict String
  pub exposed_ports : List String
  pub cmd : List String
  pub labels : Dict String
  pub tmpfs : Dict String
  pub name : String
  pub hostname : String
  pub working_dir : String
  pub privileged : Bool
  pub networks : List String
  pub network_aliases : Dict (List String)
  pub files : List (ContainerFile F)
  pub user : String
  pub always_pull_image : Bool
  pub image_platform : String
  pub shm_size : ℕ
  pub config_modifier : Option (ContainerConfig → ContainerConfig)
  pub endpoint_settings_modifier : Option (Dict EndpointSettings → Dict EndpointSettings)

-- `strings.Split(s, ":")`: the pieces between the separators, at least one.
unfoldable pub onto_first : Char → List String → List String
onto_first c [] = String.◌∷◌ c String.[] ∷ []
onto_first c (p ∷ ps) = String.◌∷◌ c p ∷ ps

unfoldable pub split_colons : String → List String
unfolding onto_first
split_colons String.[] = "" ∷ []
split_colons (String.◌∷◌ c s) =
    let rest = split_colons s in if code c == b':' then "" ∷ rest else onto_first c rest

abbrev pub err_duplicate_mount_target : String → Error
err_duplicate_mount_target target = followed (new "duplicate mount target detected") target

abbrev pub err_invalid_bind_mount : String → Error
err_invalid_bind_mount bind = followed (new "invalid bind mount") bind

-- The loop over the mounts, with the targets met so far.
unfoldable pub check_mounts : List ContainerMount → List String → Result (List String)
check_mounts [] targets = ok targets
check_mounts (m ∷ ms) targets =
    if mem_text m.target targets
    then err (err_duplicate_mount_target m.target)
    else check_mounts ms (m.target ∷ targets)

-- The target of a bind "host:target", if it has two parts.
unfoldable pub bind_target : List String → Option String
bind_target (host ∷ target ∷ []) = some target
bind_target _ = none

unfoldable pub check_bind :
    String → Option String → List String → (List String → Option Error) → Option Error
check_bind bind none targets rest = some (err_invalid_bind_mount bind)
check_bind bind (some target) targets rest =
    if mem_text target targets
    then some (err_duplicate_mount_target target)
    else rest (target ∷ targets)

unfoldable pub check_binds : List String → List String → Option Error
unfolding check_bind bind_target split_colons
check_binds [] targets = none
check_binds (b ∷ bs) targets = check_bind b (bind_target (split_colons b)) targets (check_binds bs)

-- The binds that the request's modifier sets on an empty host configuration.
unfoldable pub modifier_binds : {R : Type 0} → Option (HostConfig R → HostConfig R) → List String
modifier_binds none = []
modifier_binds (some f) = (f empty_host_config).binds

unfoldable pub check_all :
    {R : Type 0} → Option (HostConfig R → HostConfig R) → Result (List String) → Option Error
unfolding check_binds modifier_binds
check_all f (err e) = some e
check_all f (ok targets) = check_binds (modifier_binds f) targets

module _ {A R F : Type 0} where
  unfoldable pub validate_mounts : ContainerRequest A R F → Option Error
  unfolding check_all check_mounts
  validate_mounts c = check_all c.host_config_modifier (check_mounts c.mounts [])

  unfoldable pub validate_context_and_image : ContainerRequest A R F → Option Error
  validate_context_and_image c =
      if not (c.from_dockerfile.context =s "") && not (c.image =s "")
      then some (new "you cannot specify both an Image and Context in a ContainerRequest")
      else none

  unfoldable pub validate_context_or_image_is_specified : ContainerRequest A R F → Option Error
  validate_context_or_image_is_specified c =
      if (c.from_dockerfile.context =s "")
        && is_none c.from_dockerfile.context_archive
        && (c.image =s "")
      then some (new "you must specify either a build context or an image")
      else none

  -- The loop over the validation methods.
  unfoldable pub first_error :
      List (ContainerRequest A R F → Option Error) → ContainerRequest A R F → Option Error
  first_error [] c = none
  first_error (f ∷ fs) c = elim (f c) [ none ↦ first_error fs c | some e ↦ some e ]

  unfoldable pub validate : ContainerRequest A R F → Option Error
  unfolding first_error validate_context_and_image validate_context_or_image_is_specified
      validate_mounts
  validate =
      first_error
        (validate_context_and_image ∷ validate_context_or_image_is_specified ∷ validate_mounts ∷ [])

  unfoldable pub should_build_image : ContainerRequest A R F → Bool
  should_build_image c =
      not (c.from_dockerfile.context =s "") || not (is_none c.from_dockerfile.context_archive)

  unfoldable pub should_keep_built_image : ContainerRequest A R F → Bool
  should_keep_built_image c = c.from_dockerfile.keep_image

  -- `defaultHostConfigModifier`
  unfoldable pub default_host_config_modifier : ContainerRequest A R F → HostConfig R → HostConfig R
  default_host_config_modifier c h = record h {
    auto_remove = c.auto_remove;
    cap_add = c.cap_add;
    cap_drop = c.cap_drop;
    binds = c.binds;
    extra_hosts = c.extra_hosts;
    network_mode = c.network_mode;
    resources = c.resources;
  }
