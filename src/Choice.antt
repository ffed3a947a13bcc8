-- ===== src/Choice.antt =====
-- provider.go: the choice of a provider, and the options of one. `none` is a panic.
use testcontainers_go.Base.{
  ℕ, String, Bool, Option, none, some, List, [], ◌∷◌, ◌++◌, if◌then◌else◌, ◌≡◌, refl, ap,
}
use testcontainers_go.Errors.{new, suffix, Result, ok, err}
use testcontainers_go.Config.{Config}
use testcontainers_go.Provider.{bridge}

pub data ProviderType : Type 0 where
  provider_default : ProviderType
  provider_docker : ProviderType
  provider_podman : ProviderType
  other_type : ℕ → ProviderType

pub record GenericProviderOptions (Logging : Type 0) : Type 0 where
  pub logger : Logging
  pub default_network : String

pub record DockerProviderOptions (Logging : Type 0) : Type 0 where
  pub default_bridge_network_name : String
  pub generic : GenericProviderOptions Logging

abbrev pub DockerProviderOption : Type 0 → Type 0
DockerProviderOption L = DockerProviderOptions L → DockerProviderOptions L

-- A `GenericProviderOption`; the second kind is a `DockerProviderOption` too.
pub data GenericProviderOption (L : Type 0) : Type 0 where
  generic_option : (GenericProviderOptions L → GenericProviderOptions L) → GenericProviderOption L
  docker_option :
      (GenericProviderOptions L → GenericProviderOptions L)
      → DockerProviderOption L
      → GenericProviderOption L

-- `LoggerOption`
unfoldable pub with_logger : {L : Type 0} → L → GenericProviderOption L
with_logger l =
    docker_option (λ o. record o { logger = l })
      (λ o. record o { generic = record (o.generic) { logger = l } })

unfoldable pub generic_to_docker :
    {L : Type 0} → List (GenericProviderOption L) → List (DockerProviderOption L)
generic_to_docker [] = []
generic_to_docker (generic_option f ∷ opts) =
    (λ o. record o { generic = f o.generic }) ∷ generic_to_docker opts
generic_to_docker (docker_option f g ∷ opts) = g ∷ generic_to_docker opts

abbrev pub podman : String
podman = "podman"

unfoldable pub with_default_bridge_network : {L : Type 0} → String → DockerProviderOption L
with_default_bridge_network name o = record o { default_bridge_network_name = name }

unfoldable pub applied_options :
    {L : Type 0} → List (DockerProviderOption L) → DockerProviderOption L
applied_options [] o = o
applied_options (f ∷ fs) o = applied_options fs (f o)

-- What `NewDockerProvider` makes.
pub record NewProvider (Logging Client : Type 0) : Type 0 where
  pub options : DockerProviderOptions Logging
  pub host : String
  pub client : Client
  pub config : Config

-- `is_podman_host` is whether the variable DOCKER_HOST names podman's socket.
pub record Surrounding (Logging Client W : Type 0) : Type 0 where
  pub default_logger : Logging
  pub is_podman_host : Bool
  pub new_docker_client : W → Option (Result Client × W)
  pub must_extract_docker_host : W → Option (String × W)
  pub config : Config

module _ {L Client W : Type 0} (S : Surrounding L Client W) where
  unfoldable pub default_provider_options : DockerProviderOptions L
  default_provider_options = record {
    default_bridge_network_name = "";
    generic = record { logger = S.default_logger; default_network = "" };
  }

  unfoldable pub provider_at :
      DockerProviderOptions L
      → Client
      → Option (String × W)
      → Option (Result (NewProvider L Client) × W)
  provider_at o c none = none
  provider_at o c (some (host, w)) =
      some (ok (record { options = o; host = host; client = c; config = S.config }), w)

  unfoldable pub provider_by :
      DockerProviderOptions L
      → Option (Result Client × W)
      → Option (Result (NewProvider L Client) × W)
  unfolding provider_at
  provider_by o none = none
  provider_by o (some (err e, w)) = some (err e, w)
  provider_by o (some (ok c, w)) = provider_at o c (S.must_extract_docker_host w)

  -- `NewDockerProvider`
  unfoldable pub new_docker_provider :
      List (DockerProviderOption L) → W → Option (Result (NewProvider L Client) × W)
  unfolding provider_by applied_options default_provider_options
  new_docker_provider opts w =
      provider_by (applied_options opts default_provider_options) (S.new_docker_client w)

  unfoldable pub explained :
      Option (Result (NewProvider L Client) × W) → Option (Result (NewProvider L Client) × W)
  explained none = none
  explained (some (err e, w)) = some (err (suffix e "failed to create Docker provider"), w)
  explained (some (ok p, w)) = some (ok p, w)

  unfoldable pub provider_on :
      String → List (GenericProviderOption L) → W → Option (Result (NewProvider L Client) × W)
  unfolding explained new_docker_provider generic_to_docker with_default_bridge_network
  provider_on name opts w =
      explained
        (new_docker_provider (generic_to_docker opts ++ with_default_bridge_network name ∷ []) w)

  -- `GetProvider`
  unfoldable pub get_provider :
      ProviderType → List (GenericProviderOption L) → W → Option (Result (NewProvider L Client) × W)
  unfolding provider_on
  get_provider provider_default opts w =
      provider_on (if S.is_podman_host then podman else bridge) opts w
  get_provider provider_docker opts w = provider_on bridge opts w
  get_provider provider_podman opts w = provider_on podman opts w
  get_provider (other_type n) opts w = some (err (new "unknown provider"), w)

  -- The name of the bridge that a provider type stands for.
  abbrev pub bridge_of : ProviderType → String
  bridge_of provider_default = if S.is_podman_host then podman else bridge
  bridge_of provider_docker = bridge
  bridge_of provider_podman = podman
  bridge_of (other_type n) = ""

  applied_options-snoc :
      (fs : List (DockerProviderOption L)) (g : DockerProviderOption L)
      (o : DockerProviderOptions L)
      → applied_options (fs ++ g ∷ []) o ≡ g (applied_options fs o)
  unfolding applied_options
  applied_options-snoc [] g o = refl
  applied_options-snoc (f ∷ fs) g o = applied_options-snoc fs g (f o)

  -- What holds of the options of a provider, where one is made.
  abbrev pub Having :
      (DockerProviderOptions L → Type 0) → Option (Result (NewProvider L Client) × W) → Type 0
  Having Q none = Unit
  Having Q (some (err e, w)) = Unit
  Having Q (some (ok p, w)) = Q p.options

  provider_at-Having :
      (Q : DockerProviderOptions L → Type 0) (o : DockerProviderOptions L)
      → Q o
      → (c : Client) (r : Option (String × W)) → Having Q (provider_at o c r)
  unfolding provider_at
  provider_at-Having Q o q c none = tt
  provider_at-Having Q o q c (some (host, w)) = q

  explained_keeps :
      (Q : DockerProviderOptions L → Type 0) (r : Option (Result (NewProvider L Client) × W))
      → Having Q r
      → Having Q (explained r)
  unfolding explained
  explained_keeps Q none h = tt
  explained_keeps Q (some (err e, w)) h = tt
  explained_keeps Q (some (ok p, w)) h = h

  explained-Having :
      (Q : DockerProviderOptions L → Type 0) (o : DockerProviderOptions L)
      → Q o
      → (r : Option (Result Client × W)) → Having Q (explained (provider_by o r))
  unfolding provider_by explained
  explained-Having Q o q none = tt
  explained-Having Q o q (some (err e, w)) = tt
  explained-Having Q o q (some (ok c, w)) =
      explained_keeps Q (provider_at o c (S.must_extract_docker_host w))
        (provider_at-Having Q o q c (S.must_extract_docker_host w))

  provider_on-Having :
      (name : String) (opts : List (GenericProviderOption L)) (w : W)
      → Having (λ o. o.default_bridge_network_name ≡ name) (provider_on name opts w)
  unfolding provider_on new_docker_provider with_default_bridge_network
  provider_on-Having name opts w =
      explained-Having (λ o. o.default_bridge_network_name ≡ name) _
        (ap (λ o. o.default_bridge_network_name)
          (applied_options-snoc (generic_to_docker opts) (with_default_bridge_network name)
            default_provider_options))
        (S.new_docker_client w)

  -- The provider of a type has the bridge of that type, whatever the options say of it.
  get_provider-Having :
      (t : ProviderType) (opts : List (GenericProviderOption L)) (w : W)
      → Having (λ o. o.default_bridge_network_name ≡ bridge_of t) (get_provider t opts w)
  unfolding get_provider
  get_provider-Having provider_default opts w = provider_on-Having _ opts w
  get_provider-Having provider_docker opts w = provider_on-Having bridge opts w
  get_provider-Having provider_podman opts w = provider_on-Having podman opts w
  get_provider-Having (other_type n) opts w = tt
