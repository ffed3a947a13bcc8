-- ===== src/Provider/PreCreate.antt =====
-- lifecycle.go, preCreateContainerHook: what the daemon is told of a container's mounts, networks
-- and ports, and the modifiers of the request.
pub mod Bindings
pub mod Quiet
use testcontainers_go.Base.{
  ℕ, String, Bool, true, false, ◌&&◌, not, Option, none, some, List, [], ◌∷◌, ◌++◌, ◌==◌, length,
  if◌then◌else◌, M,
}
use testcontainers_go.Base.Dict.{Dict, lookup}
use testcontainers_go.Errors.{Error, Result, ok, err}
use testcontainers_go.Errors.Flow.{Try}
use testcontainers_go.Mounts.{DockerMount}
use testcontainers_go.Ports.{merge_port_bindings}
use testcontainers_go.Request.{
  ContainerRequest, ContainerConfig, HostConfig, EndpointSettings, default_host_config_modifier,
}
use testcontainers_go.Provider.{Daemon, NetworkResource, Live, outside, get_network}

-- What the daemon is given to create a container.
pub record Inputs (R : Type 0) : Type 0 where
  pub docker_input : ContainerConfig
  pub host_config : HostConfig R
  pub networking_config : Dict EndpointSettings

-- What the daemon tells of an image, as far as the program reads it.
pub record ImageInspect : Type 0 where
  pub exposed_ports : List String
  pub architecture : String
  pub os : String

abbrev pub PortMap : Type 0
PortMap = Dict (List (String × String))

-- `nat.ParsePortSpecs`, the text before a slash, the number of a port, and
-- `NetworkMode.IsContainer`, of the Docker libraries.
pub record Nat : Type 0 where
  pub parse_port_specs : List String → Result (List String × PortMap)
  pub strip : String → String
  pub number : String → String
  pub is_container : String → Bool

-- The inputs, the provider, and the world.
abbrev pub Setup : Type 0 → Type 0 → Type 0
Setup R W = Inputs R × Live W

unfoldable pub or_no_aliases : Option (List String) → List String
or_no_aliases none = []
or_no_aliases (some aliases) = aliases

-- The endpoint of a network that could be inspected; an error means that there is none.
unfoldable pub endpoint_in :
    {W : Type 0}
    → String
    → Dict (List String)
    → Result NetworkResource × Live W
    → Dict EndpointSettings × Live W
unfolding or_no_aliases lookup
endpoint_in network aliases (err e, l) = ([], l)
endpoint_in network aliases (ok nw, l) = (
  (network, record { aliases = or_no_aliases (lookup network aliases); network_id = nw.id }) ∷ [],
  l,
)

-- A modifier that the request may lack.
unfoldable pub modified : {A : Type 0} → Option (A → A) → A → A
modified none a = a
modified (some f) a = f a

unfoldable pub or_default : {A : Type 0} → Option A → A → A
or_default none d = d
or_default (some a) d = a

unfoldable pub image_ports :
    {W : Type 0} → Result ImageInspect × Live W → Result (List String) × Live W
image_ports (err e, l) = (err e, l)
image_ports (ok i, l) = (ok i.exposed_ports, l)

-- `hostConfig.PortBindings`, by the ports to expose and those of the request.
unfoldable pub bindings : Nat → PortMap → String → List String → List String → PortMap → PortMap
unfolding merge_port_bindings
bindings N configured network_mode ports requested exposed =
    if (length ports == 0) && not (N.is_container network_mode)
    then exposed
    else merge_port_bindings N.strip N.number configured exposed requested

unfoldable pub with_ports :
    {R : Type 0}
    → Nat
    → Inputs R
    → List String
    → List String
    → Result (List String × PortMap)
    → Option Error × Inputs R
unfolding bindings
with_ports N i ports requested (err e) = (some e, i)
with_ports N i ports requested (ok (set, exposed)) = (
  none,
  record i {
    docker_input = record i.docker_input { exposed_ports = set };
    host_config = record i.host_config {
      port_bindings =
          bindings N i.host_config.port_bindings i.host_config.network_mode ports requested exposed;
    };
  },
)

unfoldable pub with_parsed_ports :
    {R W : Type 0}
    → Nat
    → Inputs R
    → List String
    → Result (List String) × Live W
    → Option Error × Setup R W
unfolding with_ports
with_parsed_ports N i requested (err e, l) = (some e, (i, l))
with_parsed_ports N i requested (ok ports, l) =
    let (e, j) = with_ports N i ports requested (N.parse_port_specs ports) in (e, (j, l))

-- The inputs, after the modifiers. `mounts` is what `mapToDockerMounts` returns.
unfoldable pub modified_inputs :
    {A R F : Type 0}
    → List DockerMount
    → ContainerRequest A R F
    → Dict EndpointSettings
    → Inputs R
    → Inputs R
unfolding modified or_default default_host_config_modifier
modified_inputs mounts req endpoints i = record {
  docker_input = modified req.config_modifier i.docker_input;
  host_config =
      or_default req.host_config_modifier (default_host_config_modifier req)
        (record i.host_config { mounts = mounts });
  networking_config = modified req.endpoint_settings_modifier endpoints;
}

module _ {Ctx I W : Type 0} (D : Daemon Ctx I W) (image_inspect : Ctx → String → Try W ImageInspect)
    (N : Nat) where
  -- The first network of the request.
  unfoldable pub first_endpoint :
      Ctx → List String → Dict (List String) → M (Live W) (Dict EndpointSettings)
  unfolding endpoint_in get_network
  first_endpoint ctx [] aliases l = ([], l)
  first_endpoint ctx (n ∷ ns) aliases l = endpoint_in n aliases (get_network D ctx n l)

  -- The ports of the request, and those of the image where it has none.
  unfoldable pub ports_to_expose : Ctx → String → String → List String → Try (Live W) (List String)
  unfolding image_ports outside
  ports_to_expose ctx image network_mode ports l =
      if (length ports == 0) && not (N.is_container network_mode)
      then image_ports (outside (image_inspect ctx image) l)
      else (ok ports, l)

  module _ {A R F : Type 0} where
    unfoldable pub pre_create_container_hook :
        List DockerMount → Ctx → ContainerRequest A R F → M (Setup R W) (Option Error)
    unfolding first_endpoint modified_inputs ports_to_expose with_parsed_ports
    pre_create_container_hook mounts ctx req (i, l) =
        let (endpoints, l') = first_endpoint ctx req.networks req.network_aliases l in
        let j = modified_inputs mounts req endpoints i in
        with_parsed_ports N j req.exposed_ports
          (ports_to_expose ctx j.docker_input.image j.host_config.network_mode req.exposed_ports l')
