-- ===== src/Auth/Images.antt =====
-- docker_auth.go and internal/core/images.go: the registry of an image, and its credentials.
-- The regular expressions and url.Parse are parameters.
pub mod Hosts
use Prim.Native.String.{len, count}
use testcontainers_go.Base.{
  ℕ, String, ◌<>◌, ◌=s◌, Bool, true, false, ◌&&◌, ◌||◌, not, leb, contains, has_prefix, Option,
  none, some, List, [], ◌∷◌, if◌then◌else◌, M,
}
use testcontainers_go.Base.Dict.{Dict, lookup}
use testcontainers_go.Errors.{Error, new, Result, ok, err}
use testcontainers_go.Auth.{AuthConfig, no_auth}

-- `url.URL`, as far as the program reads it.
pub record ParsedUrl : Type 0 where
  pub scheme : String
  pub host : String
  pub path : String

abbrev pub max_url_rune_count : ℕ
max_url_rune_count = 2083

abbrev pub min_url_rune_count : ℕ
min_url_rune_count = 3

abbrev pub index_docker_io : String
index_docker_io = "https://index.docker.io/v1/"

-- The sentinel of dockercfg, named by its identifier.
abbrev pub err_credentials_not_found : Error
err_credentials_not_found = new "ErrCredentialsNotFound"

-- `url.Parse`, whether the expression of `IsURL` matches, and the registry in the match of the
-- expression of `ExtractRegistry`, "" where that part is missing.
pub record Urls : Type 0 where
  pub parse : String → Result ParsedUrl
  pub rx_url : String → Bool
  pub registry_match : String → Option String

-- The host of a key, where it can be parsed.
unfoldable pub key_host : Result ParsedUrl → Option String
key_host (err e) = none
key_host (ok u) = some (if u.scheme =s "" then u.path else u.host)

unfoldable pub is_host : String → Option String → Bool
is_host reg none = false
is_host reg (some h) = h =s reg

unfoldable pub auth_found : String → Option AuthConfig → String × Result AuthConfig
auth_found reg (some cfg) = (reg, ok cfg)
auth_found reg none = (reg, err err_credentials_not_found)

module _ (U : Urls) where
  unfoldable pub is_parsed_url : String → Result ParsedUrl → Bool
  is_parsed_url s (err e) = false
  is_parsed_url s (ok u) =
      if has_prefix u.host "."
      then false
      else if (u.host =s "") && (not (u.path =s "") && not (contains u.path "."))
      then false
      else U.rx_url s

  -- `IsURL`
  unfoldable pub is_url : String → Bool
  unfolding is_parsed_url
  is_url s =
      if (s =s "")
        || (leb max_url_rune_count (count s)
            || (leb (len s) min_url_rune_count || has_prefix s "."))
      then false
      else is_parsed_url s
          (U.parse (if contains s ":" && not (contains s "://") then "http://" <> s else s))

  unfoldable pub registry_or : String → Option String → String
  unfolding is_url
  registry_or fallback none = ""
  registry_or fallback (some r) = if is_url r then r else fallback

  -- `ExtractRegistry`
  unfoldable pub extract_registry : String → String → String
  unfolding registry_or
  extract_registry image fallback = registry_or fallback (U.registry_match image)

  -- The loop of `getRegistryAuth`.
  unfoldable pub auth_by_host : String → Dict AuthConfig → Option AuthConfig
  unfolding key_host is_host
  auth_by_host reg [] = none
  auth_by_host reg ((k, cfg) ∷ cfgs) =
      let rest = auth_by_host reg cfgs in
      if is_host reg (key_host (U.parse k)) then some cfg else rest

  unfoldable pub auth_or_by_host : String → Dict AuthConfig → Option AuthConfig → Option AuthConfig
  unfolding auth_by_host
  auth_or_by_host reg cfgs (some cfg) = some cfg
  auth_or_by_host reg cfgs none = auth_by_host reg cfgs

  unfoldable pub get_registry_auth : String → Dict AuthConfig → Option AuthConfig
  unfolding auth_or_by_host lookup
  get_registry_auth reg cfgs = auth_or_by_host reg cfgs (lookup reg cfgs)

-- The client of docker: making one, and what its daemon tells, with the address of its index.
pub record InfoClient (Ctx C W : Type 0) : Type 0 where
  pub new_docker_client : Ctx → M W (Result C)
  pub info : Ctx → C → M W (Result String)
  pub close : C → W → W

module _ {Ctx C W : Type 0} (I : InfoClient Ctx C W) where
  unfoldable pub index_or_default : Result String → String
  index_or_default (err e) = index_docker_io
  index_or_default (ok address) = address

  unfoldable pub registry_of_client : Ctx → Result C × W → String × W
  unfolding index_or_default
  registry_of_client ctx (err e, w) = (index_docker_io, w)
  registry_of_client ctx (ok c, w) =
      let (r, v) = I.info ctx c w in (index_or_default r, I.close c v)

  unfoldable pub default_registry : Ctx → M W String
  unfolding registry_of_client
  default_registry ctx w = registry_of_client ctx (I.new_docker_client ctx w)

-- `default` is `defaultRegistryFn`.
module _ {Ctx W : Type 0} (U : Urls) (default : Ctx → M W String) where
  -- `dockerImageAuth`
  unfoldable pub image_auth : Ctx → String → Dict AuthConfig → M W (String × Result AuthConfig)
  unfolding extract_registry get_registry_auth auth_found
  image_auth ctx image configs w =
      let (d, v) = default ctx w in
      let reg = extract_registry U image d in (auth_found reg (get_registry_auth U reg configs), v)

  unfoldable pub auth_of_configs :
      Ctx → String → Result (Dict AuthConfig) → M W (String × Result AuthConfig)
  unfolding extract_registry image_auth
  auth_of_configs ctx image (err e) w =
      let (d, v) = default ctx w in ((extract_registry U image d, err e), v)
  auth_of_configs ctx image (ok configs) w = image_auth ctx image configs w

  -- `DockerImageAuth`: `configs` are what `getDockerAuthConfigs` gives.
  unfoldable pub docker_image_auth :
      M W (Result (Dict AuthConfig)) → Ctx → String → M W (String × Result AuthConfig)
  unfolding auth_of_configs
  docker_image_auth configs ctx image w = let (c, v) = configs w in auth_of_configs ctx image c v
