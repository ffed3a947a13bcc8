-- ===== src/Ports.antt =====
-- docker.go and lifecycle.go: the ports of a container, how they are found, checked and merged.
-- The map of ports is a list in the order of the iteration; `PortApi` is the package nat.
pub mod Lookup
pub mod Lowest
pub mod Merge
use testcontainers_go.Base.{
  ℕ, String, ◌<>◌, ◌=s◌, Bool, true, false, ◌&&◌, ◌||◌, not, Option, none, some, List, [], ◌∷◌,
  if◌then◌else◌, M, mem_text, contains, map, is_none,
}
use testcontainers_go.Base.Dict.{Dict, lookup, insert}
use testcontainers_go.Errors.{Error, new, coded, quoted, wrap, Result, ok, err}
use testcontainers_go.Wait.Target.{PortEntry, PortApi}
use testcontainers_go.Wait.Port.{lowest_port}

-- What an inspection says of the network.
pub record Network : Type 0 where
  pub network_mode : String
  pub ports : List PortEntry

abbrev pub port_not_found : String
port_not_found = "port not found"

module _ (P : PortApi) where
  -- The first two guards of the loop of `MappedPort`.
  unfoldable pub names_port : String → String → Bool
  names_port port key =
      (P.number key =s P.number port) && ((P.proto port =s "") || (P.proto key =s P.proto port))

  -- The third guard, and the return; `rest` is what the other entries give.
  unfoldable pub take_binding : List String → String → String × Option Error → String × Option Error
  take_binding [] key rest = rest
  take_binding (host_port ∷ more) key rest = P.new_port (P.proto key) host_port

  unfoldable pub first_bound : List PortEntry → String → String × Option Error
  unfolding names_port take_binding
  first_bound [] port = ("", some (new port_not_found))
  first_bound (e ∷ es) port =
      let rest = first_bound es port in
      if names_port port e.port then take_binding e.bindings e.port rest else rest

  unfoldable pub mapped_in : Result Network → String → String × Option Error
  unfolding first_bound
  mapped_in (err e) port = ("", some e)
  mapped_in (ok n) port =
      if n.network_mode =s "host" then (port, none) else first_bound n.ports port

-- `inspect` and `host` are `Inspect` and `Host` of the container.
module _ {W Ctx : Type 0} (P : PortApi) (inspect : Ctx → M W (Result Network))
    (host : Ctx → M W (Result String)) where
  unfoldable pub mapped_port : Ctx → String → M W (String × Option Error)
  unfolding mapped_in
  mapped_port ctx port w = let (r, v) = inspect ctx w in (mapped_in P r port, v)

  unfoldable pub address : String → String → String × Option Error → Result String
  address proto host (port, some e) = err e
  address proto host (port, none) =
      ok ((if proto =s "" then "" else proto <> "://") <> host <> ":" <> P.number port)

  unfoldable pub port_at_host : Ctx → String → String → Result String → M W (Result String)
  unfolding mapped_port address
  port_at_host ctx port proto (err e) w = (err e, w)
  port_at_host ctx port proto (ok h) w =
      let (r, v) = mapped_port ctx port w in (address proto h r, v)

  unfoldable pub port_endpoint : Ctx → String → String → M W (Result String)
  unfolding port_at_host
  port_endpoint ctx port proto w = let (r, v) = host ctx w in port_at_host ctx port proto r v

  unfoldable pub lowest_endpoint : Ctx → String → Result Network → M W (Result String)
  unfolding port_endpoint lowest_port
  lowest_endpoint ctx proto (err e) w = (err e, w)
  lowest_endpoint ctx proto (ok n) w = port_endpoint ctx (lowest_port P n.ports "") proto w

  unfoldable pub endpoint : Ctx → String → M W (Result String)
  unfolding lowest_endpoint
  endpoint ctx proto w = let (r, v) = inspect ctx w in lowest_endpoint ctx proto r v

abbrev pub not_mapped : String → Error
not_mapped port = new ("port " <> port <> " is not mapped yet")

-- The loop of `checkPortsMapped`, over the keys of the ports that are mapped.
unfoldable pub check_exposed : List String → List String → Option Error
check_exposed mapped [] = none
check_exposed mapped (port ∷ ports) =
    let rest = check_exposed mapped ports in
    if mem_text port mapped
    then rest
    else if contains port "/"
    then some (not_mapped port)
    else if mem_text (port <> "/tcp") mapped
    then rest
    else some (not_mapped (port <> "/tcp"))

-- `parsed` is what `nat.ParsePortSpecs` makes of the exposed ports.
unfoldable pub check_ports_mapped : List String → Result (List String) → Option Error
unfolding check_exposed
check_ports_mapped mapped (err e) = some (wrap "parse exposed ports" e)
check_ports_mapped mapped (ok ports) = check_exposed mapped ports

-- The second loop of `mergePortBindings`; a nil map of exposed ports is the empty one.
unfoldable pub merge_from :
    {A : Type 0} → (String → String) → List String → Dict A → Dict A → Dict A
merge_from number mapped [] exposed = exposed
merge_from number mapped ((k, v) ∷ config) exposed =
    merge_from number mapped config
      (if mem_text (number k) mapped then insert k v exposed else exposed)

-- `strip` is `strings.Split(p, "/")[0]`.
unfoldable pub merge_port_bindings :
    {A : Type 0} → (String → String) → (String → String) → Dict A → Dict A → List String → Dict A
unfolding merge_from
merge_port_bindings strip number config exposed ports =
    merge_from number (map strip ports) config exposed
