-- ===== src/Request/Validation.antt =====
-- Which requests are valid.
use testcontainers_go.Base.{
  ◌≡◌, refl, ◌↔◌, inl, inr, String, ◌=s◌, mem_text, true, false, ◌&&◌, ◌||◌, not, Option, none,
  some, List, [], ◌∷◌, ◌++◌, map, arith, Bool-cases, Option-cases,
}
use testcontainers_go.Errors.{Error}
use testcontainers_go.Mounts.{ContainerMount}
use testcontainers_go.Request.{
  ContainerRequest, HostConfig, check_mounts, check_binds, bind_target, split_colons, check_all,
  modifier_binds, validate_mounts, validate, first_error, validate_context_and_image,
  validate_context_or_image_is_specified, should_build_image,
}

-- No text of the list stands in it twice, or among those met before.
abbrev pub Fresh : List String → List String → Type 0
Fresh [] met = Unit
Fresh (t ∷ ts) met = (mem_text t met ≡ false) × Fresh ts (t ∷ met)

-- The targets of the binds, if each bind has exactly two parts.
abbrev pub bind_targets : List String → Option (List String)
bind_targets [] = some []
bind_targets (b ∷ bs) = elim (bind_target (split_colons b)) [
  | none ↦ none
  | some t ↦ elim (bind_targets bs) [ none ↦ none | some ts ↦ some (t ∷ ts) ]
]

abbrev targets : List ContainerMount → List String
targets = map (λ m. m.target)

-- The binds, after the targets met so far.
binds-Fresh :
    (bs met : List String)
    → check_binds bs met ≡ none
    → (ts : List String) × (bind_targets bs ≡ some ts) × Fresh ts met
unfolding check_binds
binds-Fresh [] met h = ([], refl, tt)
binds-Fresh (b ∷ bs) met h = elim (Option-cases (bind_target (split_colons b))) [
  | inl e ↦ absurd (ground arith)
  | inr (t, e) ↦ elim (Bool-cases (mem_text t met)) [
    | inl old ↦ absurd (ground arith)
    | inr new ↦
        let (ts, parts, fresh) = binds-Fresh bs (t ∷ met) (ground arith) in
        (t ∷ ts, ground arith, (new, fresh))
  ]
]

Fresh-binds :
    (bs met ts : List String) → bind_targets bs ≡ some ts → Fresh ts met → check_binds bs met ≡ none
unfolding check_binds
Fresh-binds [] met ts e h = refl
Fresh-binds (b ∷ bs) met [] e h = absurd (ground arith)
Fresh-binds (b ∷ bs) met (t ∷ ts) e h = ground (arith, Fresh-binds bs (t ∷ met) ts)

module _ {R : Type 0} (f : Option (HostConfig R → HostConfig R)) where
  mounts-Fresh :
      (ms : List ContainerMount) (met : List String)
      → check_all f (check_mounts ms met) ≡ none
      → (ts : List String) × (bind_targets (modifier_binds f) ≡ some ts)
        × Fresh (targets ms ++ ts) met
  unfolding check_mounts check_all
  mounts-Fresh [] met h = binds-Fresh (modifier_binds f) met h
  mounts-Fresh (m ∷ ms) met h = elim (Bool-cases (mem_text m.target met)) [
    | inl old ↦ absurd (ground arith)
    | inr new ↦
        let (ts, parts, fresh) = mounts-Fresh ms (m.target ∷ met) (ground arith) in
        (ts, parts, (new, fresh))
  ]

  Fresh-mounts :
      (ms : List ContainerMount) (met ts : List String)
      → bind_targets (modifier_binds f) ≡ some ts
      → Fresh (targets ms ++ ts) met
      → check_all f (check_mounts ms met) ≡ none
  unfolding check_mounts check_all
  Fresh-mounts [] met ts e h = Fresh-binds (modifier_binds f) met ts e h
  Fresh-mounts (m ∷ ms) met ts e h = rw h.0 (Fresh-mounts ms (m.target ∷ met) ts e h.1)

module _ {A R F : Type 0} where
  first_error-none :
      (f g h : ContainerRequest A R F → Option Error) (c : ContainerRequest A R F)
      → (first_error (f ∷ g ∷ h ∷ []) c ≡ none) ↔ ((f c ≡ none) × (g c ≡ none) × (h c ≡ none))
  unfolding first_error
  first_error-none f g h c = (λ p. ground arith, λ p. ground arith)

  image_or_context :
      (c : ContainerRequest A R F)
      → (validate_context_and_image c ≡ none)
        ↔ ((not (c.from_dockerfile.context =s "") && not (c.image =s "")) ≡ false)
  unfolding validate_context_and_image
  image_or_context c = (λ h. ground arith, λ h. ground arith)

  image_given :
      (c : ContainerRequest A R F)
      → (validate_context_or_image_is_specified c ≡ none)
        ↔ ((should_build_image c || not (c.image =s "")) ≡ true)
  unfolding validate_context_or_image_is_specified should_build_image
  image_given c = (λ h. ground arith, λ h. ground arith)

module _ {A R F : Type 0} (c : ContainerRequest A R F) where
  -- The targets of the mounts and of the modifier's binds, if each bind has two parts, are all
  -- different.
  abbrev pub HasFreshTargets : Type 0
  HasFreshTargets =
      (ts : List String) × (bind_targets (modifier_binds c.host_config_modifier) ≡ some ts)
      × Fresh (targets c.mounts ++ ts) []

  -- The mounts of a request are accepted exactly when every bind of its host config modifier has
  -- two parts and no target, of a mount or of a bind, stands twice.
  pub validate_mounts_lem : (validate_mounts c ≡ none) ↔ HasFreshTargets
  unfolding validate_mounts
  validate_mounts_lem = (
    mounts-Fresh c.host_config_modifier c.mounts [],
    λ (ts, e, h). Fresh-mounts c.host_config_modifier c.mounts [] ts e h,
  )

  -- A request is valid exactly when it has not both a context and an image, it has a context, an
  -- archive or an image, and its bind and mount targets are well formed and all different.
  pub validate_lem : (validate c ≡ none) ↔ (
      ((not (c.from_dockerfile.context =s "") && not (c.image =s "")) ≡ false)
      × ((should_build_image c || not (c.image =s "")) ≡ true)
      × HasFreshTargets)
  unfolding validate should_build_image
  validate_lem =
      let chain =
        first_error-none validate_context_and_image validate_context_or_image_is_specified
          validate_mounts c in
      (
        λ h.
            let (a, b, m) = chain.0 h in
            ((image_or_context c).0 a, (image_given c).0 b, validate_mounts_lem.0 m),
        λ (a, b, m).
            chain.1 ((image_or_context c).1 a, (image_given c).1 b, validate_mounts_lem.1 m),
      )
