-- ===== src/Options/Hubs.antt =====
-- Which hub an image name gets.
use testcontainers_go.Base.{
  ◌≡◌, refl, ◌∙◌, inl, inr, ap, Bool-cases, String, ◌=s◌, =s_iff, true, false, not, [], ◌∷◌, arith,
  if◌then◌else◌,
}
use testcontainers_go.Errors.{Result, ok, err}
use testcontainers_go.Options.{
  ImageSubstitutor, custom_hub_substitutor, prepend_hub_registry, image_name, substitute_failed,
  all_substitutors,
}

-- The empty text is no other one.
other_text : (s : String) → (s =s "") ≡ true → (t : String) → ("" =s t) ≡ false → (s =s t) ≡ false
other_text s e t h = ap (λ x. x =s t) ((=s_iff s "").0 e) ∙ h

module _ (join : String → String → Result String) (registry : String → String) where
  abbrev pub blamed : String → String → Result String → Result String
  blamed image description (ok name) = ok name
  blamed image description (err e) = err (substitute_failed image description e)

  -- The name as the two hubs are meant to make it: the prefix of the configuration goes before a
  -- hub of the user, and neither is put before a registry.
  abbrev pub intended : String → String → String → Result String
  intended prefix hub image =
      if not (registry image =s "")
      then ok image
      else if not (prefix =s "")
      then blamed image (prepend_hub_registry join registry prefix).description (join prefix image)
      else if not (hub =s "")
      then blamed image (custom_hub_substitutor join registry prefix hub).description
          (join hub image)
      else ok image

  -- The user's hub, then the prefix, by what each of the two makes of its image.
  two_hubs :
      (custom hub : ImageSubstitutor) (image : String) (r : Result String)
      → custom.substitute image ≡ ok image
      → hub.substitute image ≡ r
      → image_name (all_substitutors (custom ∷ []) hub) image ≡ blamed image hub.description r
  unfolding image_name all_substitutors
  two_hubs custom hub image (ok name) p q = rw (p, q) refl
  two_hubs custom hub image (err e) p q = rw (p, q) refl

  custom_alone :
      (custom hub : ImageSubstitutor) (image : String) (r : Result String)
      → custom.substitute image ≡ r
      → ((name : String) → hub.substitute name ≡ ok name)
      → image_name (all_substitutors (custom ∷ []) hub) image ≡ blamed image custom.description r
  unfolding image_name all_substitutors
  custom_alone custom hub image (ok name) p q = rw (p, q name) refl
  custom_alone custom hub image (err e) p q = rw p refl

  -- With one user hub and the prefix of the configuration, an image with a registry keeps its
  -- name; another one gets the prefix where it is set, else the user's hub where that is set, and
  -- never both; an error of a join is reported with the image and the hub that was at fault.
  pub image_name_lem :
      (prefix hub image : String)
      → image_name
          (all_substitutors
            (custom_hub_substitutor join registry prefix hub ∷ [])
            (prepend_hub_registry join registry prefix))
          image
        ≡ intended prefix hub image
  unfolding custom_hub_substitutor prepend_hub_registry
  image_name_lem prefix hub image =
      let user = custom_hub_substitutor join registry prefix hub in
      let config = prepend_hub_registry join registry prefix in
      elim (Bool-cases (registry image =s "")) [
        | inl r ↦ elim (Bool-cases (prefix =s "")) [
          | inl p ↦ elim (Bool-cases (hub =s "")) [
            | inl h ↦
                custom_alone user config image (ok image) (ground arith) (λ name. ground arith)
                ∙ ground arith
            | inr h ↦
                custom_alone user config image (join hub image) (ground arith)
                  (λ name. ground arith)
                ∙ ground arith
          ]
          | inr p ↦
              two_hubs user config image (join prefix image) (ground arith) (
                ground (
                  arith,
                  other_text (registry image) r "docker.io" refl,
                  other_text (registry image) r "registry.hub.docker.com" refl,
                ))
              ∙ ground arith
        ]
        | inr r ↦ two_hubs user config image (ok image) (ground arith) (ground arith) ∙ ground arith
      ]
