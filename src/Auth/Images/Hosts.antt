-- ===== src/Auth/Images/Hosts.antt =====
-- Which entry of the configurations is that of a registry.
use mathlib.Core.Option.{some_inj}
use testcontainers_go.Base.{
  String, Bool, true, false, ◌≡◌, ◌↔◌, sym, ap, ◌∙◌, inl, inr, ◌⊎◌, none, some, [], ◌∷◌, Bool-cases,
  Option-cases,
}
use testcontainers_go.Base.Dict.{Dict, lookup}
use testcontainers_go.Auth.{AuthConfig}
use testcontainers_go.Auth.Images.{Urls, key_host, is_host, auth_by_host, get_registry_auth}

module _ (U : Urls) (reg : String) where
  -- The host of a key is the registry.
  abbrev pub names_host : String → Bool
  names_host k = is_host reg (key_host (U.parse k))

  -- The first entry whose key has the registry as its host.
  abbrev pub FirstByHost : Dict AuthConfig → AuthConfig → Type 0
  FirstByHost [] c = ⊥
  FirstByHost ((k, d) ∷ cfgs) c =
      ((names_host k ≡ true) × (d ≡ c)) ⊎ ((names_host k ≡ false) × FirstByHost cfgs c)

  FirstByHost-auth_by_host :
      (cfgs : Dict AuthConfig) (c : AuthConfig)
      → (auth_by_host U reg cfgs ≡ some c) ↔ FirstByHost cfgs c
  unfolding auth_by_host
  FirstByHost-auth_by_host [] c = (λ h. cc, λ h. absurd h)
  FirstByHost-auth_by_host ((k, d) ∷ cfgs) c = elim (Bool-cases (names_host k)) [
    | inl e ↦ (
      λ h. inl (e, some_inj.0 (rw e at h)),
      λ s. rw e (elim s [ inl p ↦ ap some p.1 | inr p ↦ cc ]),
    )
    | inr e ↦
        let ih = FirstByHost-auth_by_host cfgs c in
        (λ h. inr (e, ih.0 (rw e at h)), λ s. rw e (elim s [ inl p ↦ cc | inr p ↦ ih.1 p.1 ]))
  ]

  -- The credentials of a registry are those under its own name, and where there are none, the first
  -- ones whose host is the registry.
  pub get_registry_auth_lem :
      (cfgs : Dict AuthConfig) (c : AuthConfig)
      → (get_registry_auth U reg cfgs ≡ some c)
        ↔ ((lookup reg cfgs ≡ some c) ⊎ ((lookup reg cfgs ≡ none) × FirstByHost cfgs c))
  unfolding get_registry_auth
  get_registry_auth_lem cfgs c =
      let f = FirstByHost-auth_by_host cfgs c in
      elim (Option-cases (lookup reg cfgs)) [
        | inl n ↦
            (λ h. inr (n, f.0 (rw n at h)), λ s. rw n (elim s [ inl p ↦ cc | inr p ↦ f.1 p.1 ]))
        | inr (d, e) ↦
            (λ h. inl (e ∙ (rw e at h)), λ s. rw e (elim s [ inl p ↦ sym e ∙ p | inr p ↦ cc ]))
      ]
