-- ===== src/Generic/Outcomes.antt =====
-- What GenericContainer gives its caller.
use testcontainers_go.Base.{
  ◌≡◌, refl, ◌↔◌, ◌⊎◌, inl, inr, ◌=s◌, false, ◌&&◌, not, none, some, arith, if◌then◌else◌,
  Bool-cases,
}
use testcontainers_go.Generic.{
  GenericContainerRequest, Provider, Created, created, unsuccessful, generic_container,
  with_provider, after_creation, start_failed,
}

module _ {Ctx Request Container W : Type 0} (P : Provider Ctx Request Container W) (ctx : Ctx)
    (req : GenericContainerRequest Request) where
  -- What the provider makes of the request, after it was found.
  abbrev pub making : W → Created Container × W
  making w =
      let v = (P.get_provider w).1 in
      if req.reuse
      then P.reuse_or_create_container ctx req.container_request v
      else P.create_container ctx req.container_request v

  -- The container is started where the request asks for it and it does not run.
  abbrev pub IsStarted : Container → W → Type 0
  IsStarted c w = ((req.started && not (P.is_running c w)) ≡ false) ⊎ ((P.start ctx c w).0 ≡ none)

  after_creation-none :
      (k : Created Container × W)
      → ((after_creation P ctx req k).0.1 ≡ none)
        ↔ ((c : Container) × (k.0 ≡ created c) × IsStarted c k.1)
  unfolding after_creation start_failed
  after_creation-none (unsuccessful c e, w) = (λ h. cc, λ (d, h, s). cc)
  after_creation-none (created c, w) = (
    λ h. (
      c,
      refl,
      elim (Bool-cases (req.started && not (P.is_running c w))) [
        | inl t ↦ inr (ground arith)
        | inr f ↦ inl f
      ],
    ),
    λ (d, e, s). ground (arith, e, s),
  )

  -- GenericContainer returns no error exactly when a container to be reused is named, the provider
  -- is found, it makes a container, and that one starts where it is to be started and does not
  -- run.
  pub generic_container_lem :
      (w : W)
      → ((generic_container P ctx req w).0.1 ≡ none) ↔ (
          ((req.reuse && (req.name =s "")) ≡ false)
          × ((P.get_provider w).0 ≡ none)
          × ((c : Container) × ((making w).0 ≡ created c) × IsStarted c (making w).1))
  unfolding generic_container with_provider
  generic_container_lem w = ground (arith, after_creation-none (making w))

  -- A container that the provider made reaches the caller, also if it does not start.
  pub generic_container_keeps :
      (w : W) (c : Container)
      → (req.reuse && (req.name =s "")) ≡ false
      → (P.get_provider w).0 ≡ none
      → (making w).0 ≡ created c
      → (generic_container P ctx req w).0.0 ≡ some c
  unfolding generic_container with_provider after_creation start_failed
  generic_container_keeps w c n g m = ground arith
