-- ===== src/Options.antt =====
-- options.go: the substitution of image names and the options of a request that do more than set
-- one field; and the loop of CreateContainer (docker.go) that applies the substitutors.
pub mod Hubs
pub mod Commands
use testcontainers_go.Base.{
  ℕ, String, ◌<>◌, ◌=s◌, Bool, true, false, not, Option, none, some, List, [], ◌∷◌, ◌++◌, any, map,
  if◌then◌else◌, M,
}
use testcontainers_go.Base.Dict.{Dict, insert_all}
use testcontainers_go.Errors.{Error, new, wrap, Result, ok, err}
use testcontainers_go.Lifecycle.{ContainerLifecycleHooks, ContainerHook, no_hooks}
use testcontainers_go.Wait.All.{Strategy, MultiStrategy, for_all, with_deadline}

-- `ImageSubstitutor`
pub record ImageSubstitutor : Type 0 where
  pub description : String
  pub substitute : String → Result String

-- The loop over the exclusions, and what follows it.
unfoldable pub unless_excluded : List Bool → String → Result String → Result String
unless_excluded exclusions image joined = if any (λ e. e) exclusions then ok image else joined

-- `join` is `url.JoinPath`, and `registry` is `core.ExtractRegistry` with the empty fallback.
module _ (join : String → String → Result String) (registry : String → String) where
  unfoldable pub custom_hub_substitutor : String → String → ImageSubstitutor
  unfolding unless_excluded
  custom_hub_substitutor hub_image_name_prefix hub = record {
    description = "CustomHubSubstitutor (replaces hub with " <> hub <> ")";
    substitute = λ image.
        unless_excluded
          ((hub =s "") ∷ not (registry image =s "") ∷ not (hub_image_name_prefix =s "") ∷ []) image
          (join hub image);
  }

  unfoldable pub prepend_hub_registry : String → ImageSubstitutor
  unfolding unless_excluded
  prepend_hub_registry prefix = record {
    description = "HubImageSubstitutor (prepends " <> prefix <> ")";
    substitute = λ image.
        unless_excluded
          ((prefix =s "")
            ∷ not (registry image =s "")
            ∷ (registry image =s "docker.io")
            ∷ (registry image =s "registry.hub.docker.com")
            ∷ [])
          image (join prefix image);
  }

unfoldable pub substitute_failed : String → String → Error → Error
substitute_failed image description e =
    wrap ("failed to substitute image " <> image <> " with " <> description) e

-- `imageName`, after the loop over the substitutors; the messages to the logger are left out.
unfoldable pub image_name : List ImageSubstitutor → String → Result String
unfolding substitute_failed
image_name [] image = ok image
image_name (s ∷ ss) image = elim (s.substitute image) [
  | err e ↦ err (substitute_failed image s.description e)
  | ok modified ↦ image_name ss modified
]

-- The substitutors of a request, and the one of the configuration behind them.
unfoldable pub all_substitutors : List ImageSubstitutor → ImageSubstitutor → List ImageSubstitutor
all_substitutors user hub = user ++ hub ∷ []

-- What the options below change of a `GenericContainerRequest`.
pub record GenericRequest (Ctx Request W : Type 0) : Type 0 where
  pub env : Dict String
  pub host_access_ports : List ℕ
  pub image_substitutors : List ImageSubstitutor
  pub lifecycle_hooks : List (ContainerLifecycleHooks Ctx Request W)
  pub waiting_for : Option (MultiStrategy W)

module _ {Ctx Request W : Type 0} where
  -- A nil map is the empty one.
  unfoldable pub with_env :
      Dict String → GenericRequest Ctx Request W → GenericRequest Ctx Request W
  unfolding insert_all
  with_env envs req = record req { env = insert_all envs req.env }

  unfoldable pub with_host_port_access :
      List ℕ → GenericRequest Ctx Request W → GenericRequest Ctx Request W
  with_host_port_access ports req = record req {
    host_access_ports = req.host_access_ports ++ ports;
  }

  -- `exec` runs a command in the container, with its options.
  unfoldable pub with_startup_command :
      {Executable : Type 0}
      → (Executable → ContainerHook Ctx W)
      → List Executable
      → GenericRequest Ctx Request W
      → GenericRequest Ctx Request W
  with_startup_command exec execs req = record req {
    lifecycle_hooks = req.lifecycle_hooks ++ record no_hooks { post_starts = map exec execs } ∷ [];
  }

  unfoldable pub with_after_ready_command :
      {Executable : Type 0}
      → (Executable → ContainerHook Ctx W)
      → List Executable
      → GenericRequest Ctx Request W
      → GenericRequest Ctx Request W
  with_after_ready_command exec execs req = record req {
    lifecycle_hooks = req.lifecycle_hooks ++ record no_hooks { post_readies = map exec execs } ∷ [];
  }

  unfoldable pub with_wait_strategy_and_deadline :
      ℕ → List (Strategy W) → GenericRequest Ctx Request W → GenericRequest Ctx Request W
  unfolding for_all with_deadline
  with_wait_strategy_and_deadline deadline strategies req = record req {
    waiting_for = some (with_deadline (for_all strategies) deadline);
  }

  unfoldable pub with_wait_strategy :
      List (Strategy W) → GenericRequest Ctx Request W → GenericRequest Ctx Request W
  unfolding with_wait_strategy_and_deadline
  with_wait_strategy = with_wait_strategy_and_deadline 60000000000
