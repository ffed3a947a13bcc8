-- ===== src/PortForwarding.antt =====
-- port_forwarding.go and internal/core/network: how the ports of the host are exposed to a
-- container, through a container with an SSH server.
pub mod Tunnels
pub mod Leaks
use testcontainers_go.Base.{
  ℕ, String, ◌<>◌, ◌=s◌, mem_text, Bool, true, false, Option, none, some, List, [], ◌∷◌, ◌++◌,
  if◌then◌else◌, M,
}
use testcontainers_go.Base.Dict.{Dict, insert}
use testcontainers_go.Errors.{Error, new, wrap, Result, ok, err}
use testcontainers_go.Errors.Flow.{Try, and_then, ◌>>=◌, done, fail, wrapped, mapped_error, finally}
use testcontainers_go.Request.{HostConfig}
use testcontainers_go.Lifecycle.{ContainerLifecycleHooks, ContainerHook, no_hooks}

abbrev pub host_internal : String
host_internal = "host.testcontainers.internal"

abbrev pub sshd_image : String
sshd_image = "testcontainers/sshd:1.2.0"

abbrev pub ssh_port : String
ssh_port = "22/tcp"

-- `network.Inspect`, as far as the program reads it.
pub record NetworkInspect : Type 0 where
  pub id : String
  pub name : String

-- `get` of internal/core/network: making a client, listing by a filter, and closing.
pub record NetworkClient (Ctx C W : Type 0) : Type 0 where
  pub new_client : Ctx → Try W C
  pub network_list : Ctx → C → String → String → Try W (List NetworkInspect)
  pub close : C → W → W

module _ {Ctx C W : Type 0} (N : NetworkClient Ctx C W) where
  unfoldable pub first_of_networks : String → String → List NetworkInspect → Try W NetworkInspect
  first_of_networks filter value [] =
      fail (new ("network " <> value <> " not found (filtering by " <> filter <> ")"))
  first_of_networks filter value (n ∷ ns) = done n

  unfoldable pub get_network_by : Ctx → String → String → Try W NetworkInspect
  unfolding ◌>>=◌ and_then finally wrapped mapped_error first_of_networks
  get_network_by ctx filter value = do
    cli ← N.new_client ctx
    finally (N.close cli) (do
      list ← wrapped (wrap "failed to list networks") (N.network_list ctx cli filter value)
      first_of_networks filter value list)

  unfoldable pub get_by_name : Ctx → String → Try W NetworkInspect
  unfolding get_network_by
  get_by_name ctx name = get_network_by ctx "name" name

  unfoldable pub get_by_id : Ctx → String → Try W NetworkInspect
  unfolding get_network_by
  get_by_id ctx id = get_network_by ctx "id" id

-- The request for the SSH server, as far as it is not constant.
pub record SshdRequest : Type 0 where
  pub image : String
  pub exposed_ports : List String
  pub env : Dict String
  pub networks : List String
  pub network_aliases : Dict (List String)
  pub started : Bool

unfoldable pub sshd_request : String → SshdRequest
sshd_request password = record {
  image = sshd_image;
  exposed_ports = ssh_port ∷ [];
  env = ("PASSWORD", password) ∷ [];
  networks = [];
  network_aliases = [];
  started = true;
}

unfoldable pub with_network : List String → NetworkInspect → SshdRequest → SshdRequest
unfolding insert
with_network aliases nw req = record req {
  networks = req.networks ++ nw.name ∷ [];
  network_aliases = insert nw.name aliases req.network_aliases;
}

-- `sshdFirstNetwork`
unfoldable pub first_network : List String → String
first_network [] = ""
first_network (n ∷ []) = n
first_network (n ∷ m ∷ ns) = if n =s "bridge" then m else n

-- The modifier of the host configuration, which adds to the networks of the request too.
unfoldable pub host_modified :
    {R : Type 0}
    → String
    → String
    → (HostConfig R → HostConfig R)
    → HostConfig R × List String
    → HostConfig R × List String
host_modified ip network original (h, networks) = (
  original (record h { extra_hosts = h.extra_hosts ++ (host_internal <> ":" <> ip) ∷ [] }),
  if mem_text h.network_mode (network ∷ "none" ∷ "host" ∷ [])
      then networks
      else networks ++ network ∷ [],
)

-- The container of the SSH server, which `S` is the type of: making it, the query of its port for
-- the configuration of SSH, its address, and the tunnels.
pub record Sshd (Ctx S W : Type 0) : Type 0 where
  pub get_by_name : Ctx → String → Try W NetworkInspect
  pub generic_container : Ctx → SshdRequest → Try W S
  pub mapped_port : Ctx → S → String → Try W String
  pub with_port : S → String → S
  pub container_ip : Ctx → S → Try W String
  pub expose_host_port : S → List ℕ → ContainerHook Ctx W
  pub close_forwarders : Ctx → S → W → W
  pub terminate_container : S → ContainerHook Ctx W

module _ {Ctx S W : Type 0} (D : Sshd Ctx S W) (background : Ctx) (password : String) where
  -- `configureSSHConfig`, which notes the port.
  unfoldable pub configure_ssh_config : Ctx → S → Try W S
  unfolding ◌>>=◌ and_then
  configure_ssh_config ctx s = do port ← D.mapped_port ctx s ssh_port; done (D.with_port s port)

  -- `newSshdContainer`, after its options.
  unfoldable pub new_sshd_container : Ctx → SshdRequest → Try W S
  unfolding ◌>>=◌ and_then configure_ssh_config
  new_sshd_container ctx req = do s ← D.generic_container ctx req; configure_ssh_config ctx s

  -- The options: none, or the first network.
  unfoldable pub sshd_options : Ctx → List String → Try W SshdRequest
  unfolding ◌>>=◌ and_then wrapped mapped_error sshd_request with_network first_network
  sshd_options ctx [] = done (sshd_request password)
  sshd_options ctx (n ∷ ns) = do
    nw ←
        wrapped (wrap ("get network \"" <> first_network (n ∷ ns) <> "\""))
          (D.get_by_name ctx (first_network (n ∷ ns)))
    done (with_network (host_internal ∷ []) nw (sshd_request password))

  -- `Terminate` of the SSH server.
  unfoldable pub terminate_sshd : S → ContainerHook Ctx W
  terminate_sshd s ctx w = D.terminate_container s ctx (D.close_forwarders ctx s w)

  unfoldable pub sshd_hooks :
      {Request : Type 0} → S → List ℕ → ContainerLifecycleHooks Ctx Request W
  unfolding terminate_sshd
  sshd_hooks s ports = record no_hooks {
    post_readies = D.expose_host_port s ports ∷ [];
    pre_terminates = terminate_sshd s ∷ [];
  }

  -- The server with its address, for the networks of a request.
  unfoldable pub sshd_with_ip : Ctx → List String → Try W (S × String)
  unfolding ◌>>=◌ and_then wrapped mapped_error sshd_options new_sshd_container
  sshd_with_ip ctx networks = do
    req ← sshd_options ctx networks
    s ← wrapped (wrap "new sshd container") (new_sshd_container ctx req)
    ip ← wrapped (wrap "get sshd container IP") (D.container_ip background s)
    done (s, ip)

  -- `exposeHostPorts`: the hooks, and what becomes of the modifier.
  unfoldable pub expose_host_ports :
      {Request R : Type 0}
      → Ctx
      → List String
      → (HostConfig R → HostConfig R)
      → List ℕ
      → Try W (
          ContainerLifecycleHooks Ctx Request W
          × (HostConfig R × List String → HostConfig R × List String))
  unfolding ◌>>=◌ and_then sshd_with_ip sshd_hooks host_modified first_network
  expose_host_ports ctx networks original [] = fail (new "no ports to expose")
  expose_host_ports ctx networks original (p ∷ ports) = do
    (s, ip) ← sshd_with_ip ctx networks
    done (sshd_hooks s (p ∷ ports), host_modified ip (first_network networks) original)
