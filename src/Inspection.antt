-- ===== src/Inspection.antt =====
-- docker.go: what the getters of a container make of its inspection.
-- A Go map is a list in the order of the iteration.
pub mod Aliases
use testcontainers_go.Base.{String, ◌=s◌, List, [], ◌∷◌, if◌then◌else◌, map}
use testcontainers_go.Base.Dict.{Dict, insert}
use testcontainers_go.Errors.Flow.{Try, and_then, ◌>>=◌, done, finally}

-- A container at one network.
pub record ContainerEndpoint : Type 0 where
  pub ip_address : String
  pub aliases : List String

-- What the getters read of an inspection; `State` is the type of its state.
pub record ContainerJson (State : Type 0) : Type 0 where
  pub name : String
  pub state : State
  pub primary_ip : String
  pub networks : Dict ContainerEndpoint

-- The loop of `Networks`.
unfoldable pub network_names : Dict ContainerEndpoint → List String
network_names [] = []
network_names ((k, v) ∷ ns) = k ∷ network_names ns

unfoldable pub only_ip : Dict ContainerEndpoint → String → String
only_ip ((k, v) ∷ []) ip = v.ip_address
only_ip ns ip = ip

unfoldable pub primary_or_only : String → Dict ContainerEndpoint → String
unfolding only_ip
primary_or_only ip ns = if ip =s "" then only_ip ns ip else ip

-- The loop of `ContainerIPs`.
unfoldable pub ips_of : Dict ContainerEndpoint → List String
ips_of [] = []
ips_of ((k, v) ∷ ns) = v.ip_address ∷ ips_of ns

-- The loop of `NetworkAliases`, which fills the map `a`.
unfoldable pub aliases_from : Dict ContainerEndpoint → Dict (List String) → Dict (List String)
unfolding insert
aliases_from [] a = a
aliases_from ((k, v) ∷ ns) a = aliases_from ns (insert k v.aliases a)

-- `container_inspect` and `close` are the provider's client and its `Close`; `id` is `c.ID`.
module _ {Ctx W State : Type 0} (container_inspect : Ctx → String → Try W (ContainerJson State))
    (close : W → W) (id : String) where
  unfoldable pub inspect_raw_container : Ctx → Try W (ContainerJson State)
  unfolding finally
  inspect_raw_container ctx = finally close (container_inspect ctx id)

  unfoldable pub inspect : Ctx → Try W (ContainerJson State)
  unfolding ◌>>=◌ and_then inspect_raw_container
  inspect ctx = do json_raw ← inspect_raw_container ctx; done json_raw

  unfoldable pub container_name : Ctx → Try W String
  unfolding ◌>>=◌ and_then inspect
  container_name ctx = do inspected ← inspect ctx; done inspected.name

  unfoldable pub container_state : Ctx → Try W State
  unfolding ◌>>=◌ and_then inspect_raw_container
  container_state ctx = do inspected ← inspect_raw_container ctx; done inspected.state

  unfoldable pub networks_of : Ctx → Try W (List String)
  unfolding ◌>>=◌ and_then inspect network_names
  networks_of ctx = do inspected ← inspect ctx; done (network_names inspected.networks)

  unfoldable pub container_ip : Ctx → Try W String
  unfolding ◌>>=◌ and_then inspect primary_or_only
  container_ip ctx = do
    inspected ← inspect ctx
    done (primary_or_only inspected.primary_ip inspected.networks)

  unfoldable pub container_ips : Ctx → Try W (List String)
  unfolding ◌>>=◌ and_then inspect ips_of
  container_ips ctx = do inspected ← inspect ctx; done (ips_of inspected.networks)

  unfoldable pub network_aliases : Ctx → Try W (Dict (List String))
  unfolding ◌>>=◌ and_then inspect aliases_from
  network_aliases ctx = do inspected ← inspect ctx; done (aliases_from inspected.networks [])
