-- ===== src/Provider/PreCreate/Bindings.antt =====
-- Which bindings a container's ports have when it is created.
use testcontainers_go.Base.{◌≡◌, String, Option, none, some, List, [], ◌∷◌, map, mem_text}
use testcontainers_go.Base.Dict.{lookup}
use testcontainers_go.Errors.{Error, Result, ok, err}
use testcontainers_go.Mounts.{DockerMount}
use testcontainers_go.Ports.Merge.{preferred}
use testcontainers_go.Request.{ContainerRequest}
use testcontainers_go.Provider.{Live}
use testcontainers_go.Provider.PreCreate.{Inputs, PortMap, Nat, Setup, modified_inputs}

-- What a key has in the merged bindings.
abbrev pub chosen : Nat → List String → PortMap → PortMap → String → Option (List (String × String))
chosen N requested configured exposed k =
    preferred (mem_text (N.number k) (map N.strip requested)) (lookup k configured)
      (lookup k exposed)

-- Where nothing is exposed, nothing was requested.
abbrev Covers : List String → List String → Type 0
Covers ports [] = Unit
Covers ports (p ∷ ps) = ports ≡ p ∷ ps

abbrev ResultCovers : {W : Type 0} → Result (List String) × Live W → List String → Type 0
ResultCovers (err e, l) requested = Unit
ResultCovers (ok ports, l) requested = Covers ports requested

-- The ports that a hook without an error published: those of the request, or of the image where
-- it has none, as they parse; every key has the bindings chosen for it.
abbrev pub Published :
    {R W : Type 0} → Nat → List String → PortMap → Option Error × Setup R W → Type 0
Published N requested configured (some e, s) = Unit
Published N requested configured (none, (j, l)) =
    (ports : List String) × (set : List String) × (exposed : PortMap) × (N.parse_port_specs ports
      ≡ ok (set, exposed))
    × Covers ports requested
    × (j.docker_input.exposed_ports ≡ set)
    × ((k : String)
        → lookup k j.host_config.port_bindings ≡ chosen N requested configured exposed k)

-- The bindings that the request's modifier of the host configuration leaves.
abbrev pub configured :
    {A R F : Type 0} → List DockerMount → ContainerRequest A R F → Inputs R → PortMap
configured mounts req i = (modified_inputs mounts req [] i).host_config.port_bindings
