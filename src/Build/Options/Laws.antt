-- ===== src/Build/Options/Laws.antt =====
-- The credentials that the options of a build carry.
use testcontainers_go.Base.{
  String, ◌=s◌, =s_iff, mem_text, ◌≡◌, refl, ap, ◌∙◌, Option, none, some, List, [], ◌∷◌, map, M,
  arith, if◌then◌else◌,
}
use testcontainers_go.Base.Dict.{Dict, lookup, insert, lookup-insert}
use testcontainers_go.Errors.{ok, is}
use testcontainers_go.Errors.Flow.{and_then}
use testcontainers_go.Auth.{AuthConfig}
use testcontainers_go.Auth.Images.{
  Urls, extract_registry, get_registry_auth, auth_found, image_auth,
}
use testcontainers_go.Build.Options.{auth_added, auths_of_images}

-- The first value, or the second.
abbrev pub or_else : {A : Type 0} → Option A → Option A → Option A
or_else none b = b
or_else (some a) b = some a

-- What an image adds, by what is found.
abbrev added : Option AuthConfig → String → Dict AuthConfig → Dict AuthConfig
added none r auths = auths
added (some a) r auths = insert r a auths

auth_added-found :
    (image r : String) (o : Option AuthConfig) (auths : Dict AuthConfig)
    → auth_added image (auth_found r o) auths ≡ ok (added o r auths)
unfolding auth_added auth_found is insert
auth_added-found image r none auths = refl
auth_added-found image r (some a) auths = refl

added-lookup :
    (k r : String) (o : Option AuthConfig) (auths : Dict AuthConfig)
    → lookup k (added o r auths) ≡ (if r =s k then or_else o (lookup k auths) else lookup k auths)
added-lookup k r none auths = ground arith
added-lookup k r (some a) auths = lookup-insert k r a auths

module _ {Ctx W : Type 0} (U : Urls) (default : Ctx → M W String) (background : Ctx) (d : String)
    (same : (w : W) → (default background w).0 ≡ d) where
  -- If the default registry is always the same, the credentials for the images of a Dockerfile are
  -- found without an error: a registry that one of the images is of has those that are configured
  -- for it, or else those that it had before, and another registry keeps those that it had.
  pub auths_of_images_lem :
      (configs : Dict AuthConfig) (images : List String) (auths : Dict AuthConfig) (w : W)
      → (found : Dict AuthConfig) × (v : W) × (auths_of_images U default background configs images
            auths w
          ≡ (ok found, v))
        × ((k : String)
            → lookup k found ≡ (
                if mem_text k (map (λ i. extract_registry U i d) images)
                then or_else (get_registry_auth U k configs) (lookup k auths)
                else lookup k auths))
  unfolding auths_of_images image_auth
  auths_of_images_lem configs [] auths w = (auths, w, refl, λ k. refl)
  auths_of_images_lem configs (i ∷ images) auths w =
      let r = extract_registry U i d in
      let o = get_registry_auth U r configs in
      let (x, v, e, h) =
        auths_of_images_lem configs images (added o r auths) (default background w).1 in
      (
        x,
        v,
        ap
              (λ t.
                let q = extract_registry U i t in
                and_then
                  (
                    auth_added i (auth_found q (get_registry_auth U q configs)) auths,
                    (default background w).1,
                  )
                  (λ a. auths_of_images U default background configs images a))
              (same w)
            ∙ ap
                (λ q.
                  and_then (q, (default background w).1)
                    (λ a. auths_of_images U default background configs images a))
                (auth_added-found i r o auths)
            ∙ e,
        λ k. ground (arith, h k, added-lookup k r o auths, =s_iff k r, =s_iff r k),
      )
