-- ===== src/Auth.antt =====
-- docker_auth.go: the credentials of a registry, as the configuration of docker gives them.
-- A Go map is a list in the order of the iteration.
pub mod Images
pub mod Cache
pub mod Collecting
pub mod Lookups
use testcontainers_go.Base.{
  String, ◌<>◌, ◌=s◌, Bool, true, false, ◌&&◌, not, Option, none, some, List, [], ◌∷◌, ◌++◌,
  if◌then◌else◌,
}
use testcontainers_go.Base.Dict.{Dict, lookup, insert}
use testcontainers_go.Errors.{Error, wrap, Result, ok, err, join}

-- `registry.AuthConfig` and `dockercfg.AuthConfig`, which have the same fields.
pub record AuthConfig : Type 0 where
  pub username : String
  pub password : String
  pub auth : String
  pub email : String
  pub server_address : String
  pub identity_token : String
  pub registry_token : String

abbrev pub no_auth : AuthConfig
no_auth = record {
  username = "";
  password = "";
  auth = "";
  email = "";
  server_address = "";
  identity_token = "";
  registry_token = "";
}

pub record Credentials : Type 0 where
  pub username : String
  pub password : String

-- `dockercfg.Config`, as far as the program reads it.
pub record DockerConfig : Type 0 where
  pub auth_configs : Dict AuthConfig
  pub credential_helpers : Dict String

-- `authConfigResult`: a key with its configuration, or an error.
abbrev pub AuthConfigResult : Type 0
AuthConfigResult = Result (String × AuthConfig)

abbrev pub cache_key : String → String → String
cache_key config_key hostname = config_key <> ":" <> hostname

abbrev pub credentials_failed : String → Error → Error
credentials_failed hostname e = wrap ("getting credentials for " <> hostname) e

-- What `Get` writes, where the request of the credentials did not fail.
unfoldable pub stored :
    String → String → Result Credentials → Dict Credentials → Result Credentials × Dict Credentials
unfolding insert
stored config_key hostname (err e) cache = (err (credentials_failed hostname e), cache)
stored config_key hostname (ok c) cache = (ok c, insert (cache_key config_key hostname) c cache)

unfoldable pub entry_or :
    (String → Result Credentials)
    → String
    → String
    → Option Credentials
    → Dict Credentials
    → Result Credentials × Dict Credentials
unfolding stored
entry_or request hostname config_key (some c) cache = (ok c, cache)
entry_or request hostname config_key none cache =
    stored config_key hostname (request hostname) cache

-- `Get` of the cache. `request` is `dockercfg.GetRegistryCredentials`.
unfoldable pub get :
    (String → Result Credentials)
    → String
    → String
    → Dict Credentials
    → Result Credentials × Dict Credentials
unfolding lookup entry_or
get request hostname config_key cache =
    entry_or request hostname config_key (lookup (cache_key config_key hostname) cache) cache

-- The first case of the switch.
unfoldable pub needs_credentials : AuthConfig → Bool
needs_credentials ac = (ac.username =s "") && (ac.password =s "")

-- The second case of the switch. `base64` is the standard encoding of the bytes of a text.
unfoldable pub with_auth : (String → String) → AuthConfig → AuthConfig
with_auth base64 ac =
    if ac.auth =s "" then record ac { auth = base64 (ac.username <> ":" <> ac.password) } else ac

unfoldable pub with_credentials : String → AuthConfig → Result Credentials → AuthConfigResult
with_credentials k ac (err e) = err e
with_credentials k ac (ok c) = ok (k, record ac { username = c.username; password = c.password })

-- The errors in the order of their arrival, and the map of configurations.
unfoldable pub gathered :
    List AuthConfigResult
    → List (Option Error)
    → Dict AuthConfig
    → List (Option Error) × Dict AuthConfig
unfolding insert
gathered [] errs cfgs = (errs, cfgs)
gathered (err e ∷ rs) errs cfgs = gathered rs (errs ++ some e ∷ []) cfgs
gathered (ok (k, c) ∷ rs) errs cfgs = gathered rs errs (insert k c cfgs)

unfoldable pub joined_or : Option Error → Dict AuthConfig → Result (Dict AuthConfig)
joined_or none cfgs = ok cfgs
joined_or (some e) cfgs = err e

-- The loop over the results, and what follows it.
unfoldable pub collected_configs : List AuthConfigResult → Result (Dict AuthConfig)
unfolding gathered joined_or join
collected_configs rs = let (errs, cfgs) = gathered rs [] [] in joined_or (join errs) cfgs

-- What surrounds the program: the variable DOCKER_AUTH_CONFIG, its decoding, the configuration that
-- dockercfg loads, and the path, the opening and the hash of its file.
pub record Surroundings (F : Type 0) : Type 0 where
  pub docker_auth_config : String
  pub unmarshal : String → Result DockerConfig
  pub load_default_config : Result DockerConfig
  pub config_path : Result String
  pub open_file : String → Result F
  pub md5 : F → Result String

module _ {F : Type 0} (S : Surroundings F) where
  unfoldable pub unmarshalled_or : Result DockerConfig → Result DockerConfig → Result DockerConfig
  unmarshalled_or (ok cfg) default = ok cfg
  unmarshalled_or (err e) default = default

  unfoldable pub get_docker_config : Result DockerConfig
  unfolding unmarshalled_or
  get_docker_config =
      if not (S.docker_auth_config =s "")
      then unmarshalled_or (S.unmarshal S.docker_auth_config) S.load_default_config
      else S.load_default_config

  unfoldable pub hashed : Result F → Result String
  hashed (err e) = err (wrap "open config file" e)
  hashed (ok f) = elim (S.md5 f) [ err e ↦ err (wrap "copying config file" e) | ok h ↦ ok h ]

  unfoldable pub key_of_path : Result String → Result String
  unfolding hashed
  key_of_path (err e) = err e
  key_of_path (ok p) = hashed (S.open_file p)

  unfoldable pub config_file_key : Result String
  unfolding key_of_path
  config_file_key = key_of_path S.config_path

  unfoldable pub keyed : DockerConfig → Result String → Result (DockerConfig × String)
  keyed cfg (err e) = err e
  keyed cfg (ok k) = ok (cfg, k)

  unfoldable pub config_and_key : Result DockerConfig → Result (DockerConfig × String)
  unfolding keyed config_file_key
  config_and_key (err e) = err e
  config_and_key (ok cfg) = keyed cfg config_file_key

  -- What `getDockerAuthConfigs` does before it starts its goroutines.
  unfoldable pub configuration : Result (DockerConfig × String)
  unfolding config_and_key get_docker_config
  configuration = config_and_key get_docker_config
