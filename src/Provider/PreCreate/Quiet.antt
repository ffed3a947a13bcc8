-- ===== src/Provider/PreCreate/Quiet.antt =====
-- That the hook before a creation leaves alone what the daemon's inspections leave alone.
use testcontainers_go.Base.{
  ℕ, ◌≡◌, refl, ◌∙◌, String, ◌&&◌, not, ◌==◌, length, List, [], ◌∷◌, Bool-cases, inl, inr,
}
use testcontainers_go.Base.Dict.{Dict}
use testcontainers_go.Errors.{Result, ok, err}
use testcontainers_go.Errors.Flow.{Try}
use testcontainers_go.Errors.Flow.Keeping.{Keeps}
use testcontainers_go.Mounts.{DockerMount}
use testcontainers_go.Request.{ContainerRequest}
use testcontainers_go.Provider.{Daemon, NetworkResource, Live, outside, get_network}
use testcontainers_go.Provider.PreCreate.{
  Inputs, ImageInspect, Nat, Setup, endpoint_in, first_endpoint, image_ports, ports_to_expose,
  with_parsed_ports, modified_inputs, pre_create_container_hook,
}

module _ {Ctx I W : Type 0} (D : Daemon Ctx I W) (image_inspect : Ctx → String → Try W ImageInspect)
    (N : Nat) (n : W → ℕ) (H : (ctx : Ctx) (name : String) → Keeps n (D.network_inspect ctx name))
    (J : (ctx : Ctx) (name : String) → Keeps n (image_inspect ctx name)) where
  endpoint-kept :
      (name : String) (aliases : Dict (List String)) (r : Result NetworkResource × Live W)
      → n (endpoint_in name aliases r).1.1 ≡ n r.1.1
  unfolding endpoint_in
  endpoint-kept name aliases (err e, l) = refl
  endpoint-kept name aliases (ok nw, l) = refl

  first-Keeps :
      (ctx : Ctx) (ns : List String) (aliases : Dict (List String))
      → Keeps (λ l. n l.1) (first_endpoint D image_inspect N ctx ns aliases)
  unfolding first_endpoint get_network outside
  first-Keeps ctx [] aliases l = refl
  first-Keeps ctx (m ∷ ns) aliases l = endpoint-kept m aliases (get_network D ctx m l) ∙ H ctx m l.1

  ports-kept : (r : Result ImageInspect × Live W) → n (image_ports r).1.1 ≡ n r.1.1
  unfolding image_ports
  ports-kept (err e, l) = refl
  ports-kept (ok i, l) = refl

  expose-Keeps :
      (ctx : Ctx) (image mode : String) (ports : List String)
      → Keeps (λ l. n l.1) (ports_to_expose D image_inspect N ctx image mode ports)
  unfolding ports_to_expose outside
  expose-Keeps ctx image mode ports l =
      elim (Bool-cases ((length ports == 0) && not (N.is_container mode))) [
        | inl e ↦ rw e (ports-kept (outside (image_inspect ctx image) l) ∙ J ctx image l.1)
        | inr e ↦ rw e refl
      ]

  parsed-kept :
      {R : Type 0} (i : Inputs R) (requested : List String) (r : Result (List String) × Live W)
      → n (with_parsed_ports N i requested r).1.1.1 ≡ n r.1.1
  unfolding with_parsed_ports
  parsed-kept i requested (err e, l) = refl
  parsed-kept i requested (ok ports, l) = refl

  pub pre_create-Keeps :
      {A R F : Type 0} (mounts : List DockerMount) (ctx : Ctx) (req : ContainerRequest A R F)
      → Keeps {S = Setup R W}
          (λ s. n s.1.1)
          (pre_create_container_hook D image_inspect N mounts ctx req)
  unfolding pre_create_container_hook
  pre_create-Keeps mounts ctx req (i, l) =
      let (es, l') = first_endpoint D image_inspect N ctx req.networks req.network_aliases l in
      let j = modified_inputs mounts req es i in
      parsed-kept j req.exposed_ports (
        ports_to_expose D image_inspect N ctx j.docker_input.image j.host_config.network_mode
          req.exposed_ports l')
      ∙ expose-Keeps ctx j.docker_input.image j.host_config.network_mode req.exposed_ports l'
      ∙ first-Keeps ctx req.networks req.network_aliases l
