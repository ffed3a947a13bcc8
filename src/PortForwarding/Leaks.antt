-- ===== src/PortForwarding/Leaks.antt =====
-- What exposeHostPorts leaves behind where it fails late.
use testcontainers_go.Base.{ℕ, String, ◌≡◌, refl, List, [], ◌∷◌}
use testcontainers_go.Errors.{Error, wrap, ok, err}
use testcontainers_go.Request.{HostConfig}
use testcontainers_go.PortForwarding.{
  Sshd, ssh_port, sshd_request, sshd_options, sshd_with_ip, new_sshd_container,
  configure_ssh_config, expose_host_ports,
}

module _ {Ctx S W : Type 0} (D : Sshd Ctx S W) (background : Ctx) (password : String) where
  -- Where the SSH server is created and the query of its port fails, the state returned is the one
  -- after the query: nothing terminates the server.
  pub expose_host_ports-unconfigured :
      {Request R : Type 0} (ctx : Ctx) (original : HostConfig R → HostConfig R) (p : ℕ)
      (ports : List ℕ) (s : S) (e : Error) (w v u : W)
      → D.generic_container ctx (sshd_request password) w ≡ (ok s, v)
      → D.mapped_port ctx s ssh_port v ≡ (err e, u)
      → expose_host_ports D background password {Request = Request} ctx [] original (p ∷ ports) w
        ≡ (err (wrap "new sshd container" e), u)
  unfolding expose_host_ports sshd_with_ip sshd_options new_sshd_container configure_ssh_config
  expose_host_ports-unconfigured ctx original p ports s e w v u h k = rw (h, k) refl
