-- ===== src/Provider.antt =====
-- docker.go: the provider, its networks and the host of its daemon.
-- The provider's own fields change too, so its operations act on it and on the world at once.
pub mod Networks
pub mod Reaping
pub mod Creation
pub mod Runs
pub mod Connections
pub mod Reuse
pub mod Images
pub mod PreCreate
pub mod Hooks
use testcontainers_go.Base.{
  String, Bool, true, false, ◌=s◌, ◌||◌, not, mem_text, Option, none, some, List, [], ◌∷◌,
  if◌then◌else◌, M,
}
use testcontainers_go.Base.Dict.{Dict, insert_all}
use testcontainers_go.Errors.{Error, new, suffix, wrap_two, Result, ok, err}
use testcontainers_go.Errors.Flow.{
  Try, and_then, ◌>>=◌, ◌>>◌, done, fail, wrapped, mapped_error, finally, on_error, undone, checked,
  result_of,
}

pub record DockerProvider : Type 0 where
  pub default_network : String
  pub default_bridge_network_name : String
  pub host : String
  pub host_cache : String
  pub ryuk_disabled : Bool
  pub hub_image_name_prefix : String

-- `network.Inspect`, as far as the program reads it: the gateways are those of its IPAM configuration.
pub record NetworkResource : Type 0 where
  pub id : String
  pub gateways : List String

-- `network.CreateOptions`, where `I` is the type of IPAM configurations.
pub record NetworkOptions (I : Type 0) : Type 0 where
  pub driver : String
  pub internal : Bool
  pub enable_ipv6 : Option Bool
  pub attachable : Bool
  pub labels : Dict String
  pub ipam : Option I

pub record NetworkRequest (I : Type 0) : Type 0 where
  pub driver : String
  pub internal : Bool
  pub enable_ipv6 : Option Bool
  pub name : String
  pub labels : Dict String
  pub attachable : Bool
  pub ipam : Option I

-- The calls of the Docker client on networks, and those that tell where the daemon is.
-- `daemon_url` is the scheme and the host of `url.Parse(client.DaemonHost())`.
pub record Daemon (Ctx I W : Type 0) : Type 0 where
  pub network_list : Ctx → Try W (List String)
  pub network_create : Ctx → String → NetworkOptions I → Try W String
  pub network_inspect : Ctx → String → Try W NetworkResource
  pub network_remove : Ctx → String → M W (Option Error)
  pub close : W → W
  pub host_override : W → Option String
  pub daemon_url : Result (String × String)
  pub in_a_container : W → Bool
  pub default_gateway_ip : Try W String

abbrev pub bridge : String
bridge = "bridge"

abbrev pub reaper_default : String
reaper_default = "reaper_default"

-- The provider, and the world.
abbrev pub Live : Type 0 → Type 0
Live W = DockerProvider × W

-- A call that leaves the provider as it is.
unfoldable pub outside : {W A : Type 0} → M W A → M (Live W) A
outside f (p, w) = let (a, v) = f w in (a, (p, v))

unfoldable pub at_world : {W : Type 0} → (W → W) → Live W → Live W
at_world f (p, w) = (p, f w)

-- The loop of `getDefaultNetwork`: the bridge was met, or whether the reaper's network was.
unfoldable pub without_bridge : String → List String → Bool → Option Bool
without_bridge name [] reaper_network_exists = some reaper_network_exists
without_bridge name (n ∷ ns) reaper_network_exists =
    let rest = without_bridge name ns (reaper_network_exists || (n =s reaper_default)) in
    if n =s name then none else rest

-- The loop of `GetGatewayIP`.
unfoldable pub first_gateway : List String → String
first_gateway [] = ""
first_gateway (g ∷ gs) = if g =s "" then first_gateway gs else g

unfoldable pub set_default_network : {W : Type 0} → String → Live W → Live W
set_default_network n (p, w) = (record p { default_network = n }, w)

unfoldable pub set_host_cache : {W : Type 0} → String → Live W → Live W
set_host_cache h (p, w) = (record p { host_cache = h }, w)

unfoldable pub get_network :
    {Ctx I W : Type 0} → Daemon Ctx I W → Ctx → String → Try (Live W) NetworkResource
unfolding outside
get_network D ctx name = outside (D.network_inspect ctx name)

unfoldable pub gateway_of : NetworkResource → Result String
unfolding first_gateway
gateway_of nw =
    let ip = first_gateway nw.gateways in
    if ip =s "" then err (new "Failed to get gateway IP from network settings") else ok ip

-- The gateway of the default network, else the one of the container, else the local host.
unfoldable pub gateway_or_localhost :
    {Ctx I W : Type 0} → Daemon Ctx I W → Result String × Live W → String × Live W
unfolding outside
gateway_or_localhost D (ok ip, l) = (ip, l)
gateway_or_localhost D (err e, l) =
    let (r, l') = outside D.default_gateway_ip l in
    elim r [ ok ip ↦ (ip, l') | err e' ↦ ("localhost", l') ]

unfoldable pub cached : {W : Type 0} → String × Live W → Result String × Live W
unfolding set_host_cache
cached (h, l) = (ok h, set_host_cache h l)

module _ {Ctx I W : Type 0} (D : Daemon Ctx I W) (default_labels : Dict String) where
  -- The reaper's network is created where neither it nor the bridge exists.
  unfoldable pub default_network_of : Ctx → String → Option Bool → Try W String
  unfolding ◌>>◌
  default_network_of ctx name none = done name
  default_network_of ctx name (some true) = done reaper_default
  default_network_of ctx name (some false) = do
    D.network_create ctx reaper_default (record {
      driver = bridge;
      internal = false;
      enable_ipv6 = none;
      attachable = true;
      labels = default_labels;
      ipam = none;
    })
    done reaper_default

  unfoldable pub get_default_network : Ctx → Try (Live W) String
  unfolding ◌>>=◌ outside default_network_of without_bridge
  get_default_network ctx l =
      outside
        (do
          names ← D.network_list ctx
          default_network_of ctx l.0.default_bridge_network_name
              (without_bridge l.0.default_bridge_network_name names false))
        l

  -- `p.DefaultNetwork, err = p.getDefaultNetwork(…)`: an error leaves it empty.
  unfoldable pub assign_default_network : Result String × Live W → Result Unit × Live W
  unfolding set_default_network
  assign_default_network (err e, l) = (err e, set_default_network "" l)
  assign_default_network (ok n, l) = (ok tt, set_default_network n l)

  unfoldable pub ensure_default_network : Ctx → Try (Live W) Unit
  unfolding get_default_network assign_default_network
  ensure_default_network ctx l =
      if l.0.default_network =s ""
      then assign_default_network (get_default_network ctx l)
      else (ok tt, l)

  unfoldable pub get_gateway_ip : Ctx → Try (Live W) String
  unfolding ◌>>=◌ ◌>>◌ ensure_default_network get_network gateway_of
  get_gateway_ip ctx = do
    ensure_default_network ctx
    nw ← (λ l. get_network D ctx l.0.default_network l)
    λ l. (gateway_of nw, l)

  -- The switch over the scheme.
  unfoldable pub host_of_scheme : Ctx → String → String → Try (Live W) String
  unfolding cached gateway_or_localhost get_gateway_ip
  host_of_scheme ctx scheme hostname l =
      if mem_text scheme ("http" ∷ "https" ∷ "tcp" ∷ [])
      then cached (hostname, l)
      else if mem_text scheme ("unix" ∷ "npipe" ∷ [])
      then (if D.in_a_container l.1
          then cached (gateway_or_localhost D (get_gateway_ip ctx l))
          else cached ("localhost", l))
      else (err (new "could not determine host through env or docker host"), l)

  unfoldable pub inferred_host : Ctx → Result (String × String) → Try (Live W) String
  unfolding host_of_scheme finally at_world
  inferred_host ctx (err e) = fail e
  inferred_host ctx (ok (scheme, hostname)) =
      finally (at_world D.close) (host_of_scheme ctx scheme hostname)

  unfoldable pub overridden_host : Ctx → Option String → Try (Live W) String
  unfolding inferred_host cached
  overridden_host ctx (some h) l = cached (h, l)
  overridden_host ctx none l = inferred_host ctx D.daemon_url l

  unfoldable pub daemon_host : Ctx → Try (Live W) String
  unfolding overridden_host
  daemon_host ctx l =
      if not (l.0.host_cache =s "")
      then (ok l.0.host_cache, l)
      else overridden_host ctx (D.host_override l.1) l
