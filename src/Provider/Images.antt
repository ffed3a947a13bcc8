-- ===== src/Provider/Images.antt =====
-- docker.go: the image of a container, which is built, or substituted and pulled.
pub mod Pulls
use testcontainers_go.Base.{
  ℕ, String, ◌<>◌, ◌=s◌, Bool, true, false, ◌||◌, not, any, Option, none, some, List, [], ◌∷◌, ◌++◌,
  map, if◌then◌else◌, M,
}
use testcontainers_go.Errors.{Error, new, wrap, Result, ok, err, message}
use testcontainers_go.Errors.Flow.{
  Try, and_then, ◌>>=◌, ◌>>◌, done, fail, wrapped, mapped_error, finally,
}
use testcontainers_go.Options.{ImageSubstitutor, image_name}
use testcontainers_go.Request.{ContainerRequest, should_build_image}
use testcontainers_go.Provider.PreCreate.{ImageInspect}

-- What one attempt under a backoff ends with.
pub data Attempt (A : Type 0) : Type 0 where
  achieved : A → Attempt A
  again : Error → Attempt A
  permanent : Error → Attempt A

-- The calls on images of the Docker client, where `Reader` is the type of bodies, and the steps
-- around them. `docker_image_auth` gives the registry and its credentials, `encoded` is the
-- encoding of these, and `build_options` is `BuildOptions` of container.go with its first tag.
-- `retry_pull` and `retry_build` are the retries of the backoff library with a notification.
pub record Registry (Ctx Auth Platform Options Reader W : Type 0) : Type 0 where
  pub image_inspect : Ctx → String → Try W ImageInspect
  pub is_err_not_found : Error → Bool
  pub docker_image_auth : Ctx → String → M W (String × Result Auth)
  pub encoded : Auth → Result String
  pub image_pull : Ctx → String → String → Option String → Try W Reader
  pub image_build : Ctx → Options → Try W Reader
  pub build_options : Try W Options
  pub first_tag : Options → String
  pub close_context : Options → W → W
  pub read_all : Reader → M W (Option Error)
  pub display : Reader → M W (Option Error)
  pub close_body : Reader → W → W
  pub close : W → W
  pub printf : String → W → W
  pub retry_pull : Ctx → (Error → W → W) → M W (Attempt Reader) → Try W Reader
  pub retry_build :
      Ctx → (Error → W → W) → M W (Attempt (Options × Reader)) → Try W (Options × Reader)
  pub parse_platform : String → Result Platform
  pub architecture : Platform → String
  pub os : Platform → String

-- `isPermanentClientError`, over the list of tests.
unfoldable pub is_permanent_client_error : List (Error → Bool) → Error → Bool
is_permanent_client_error tests e = any (λ t. t e) tests

-- `if err != nil { … }` in an attempt.
unfoldable pub attempted :
    {A W : Type 0} → List (Error → Bool) → (Error → Error) → (W → W) → Result A × W → Attempt A × W
unfolding is_permanent_client_error
attempted tests f close (err e, w) =
    ((if is_permanent_client_error tests e then permanent (f e) else again e), w)
attempted tests f close (ok a, w) = (achieved a, close w)

unfoldable pub checked_by : {W : Type 0} → (Error → Error) → Option Error × W → Result Unit × W
checked_by f (none, w) = (ok tt, w)
checked_by f (some e, w) = (err (f e), w)

abbrev pub pull_failed : Error → String
pull_failed e = "Failed to pull image: " <> message e <> ", will retry"

abbrev pub build_failed : Error → String
build_failed e = "Failed to build image: " <> message e <> ", will retry"

unfoldable pub platform_differs : Option (String × String) → ImageInspect → Bool
platform_differs none i = false
platform_differs (some (architecture, os)) i =
    not (i.architecture =s architecture) || not (i.os =s os)

module _ {Ctx Auth Platform Options Reader W : Type 0}
    (G : Registry Ctx Auth Platform Options Reader W)
    (permanent_client_errors : List (Error → Bool)) where
  -- The credentials of a pull: an error is printed, and there are none.
  unfoldable pub encoded_or_none : String → Result String → M W (Option String)
  encoded_or_none tag (err e) w = (
    none,
    G.printf
        ("Failed to marshal image auth. Setting empty credentials for the image: "
          <> tag
          <> ". Error is: "
          <> message e)
        w,
  )
  encoded_or_none tag (ok a) w = (some a, w)

  unfoldable pub registry_auth : String → (String × Result Auth) × W → Option String × W
  unfolding encoded_or_none
  registry_auth tag ((registry, err e), w) = (
    none,
    G.printf
        ("Failed to get image auth for "
          <> registry
          <> ". Setting empty credentials for the image: "
          <> tag
          <> ". Error is: "
          <> message e)
        w,
  )
  registry_auth tag ((registry, ok a), w) = encoded_or_none tag (G.encoded a) w

  unfoldable pub pull_once : Ctx → String → String → Option String → M W (Attempt Reader)
  unfolding attempted
  pull_once ctx tag platform auth w =
      attempted permanent_client_errors (λ e. e) G.close (G.image_pull ctx tag platform auth w)

  -- The pull ends when its body was read.
  unfoldable pub drained : Reader → Try W Unit
  unfolding checked_by
  drained pull w =
      let (r, w') = checked_by (λ e. e) (G.read_all pull w) in (r, G.close_body pull w')

  unfoldable pub attempt_to_pull_image : Ctx → String → String → Try W Unit
  unfolding ◌>>=◌ registry_auth pull_once drained
  attempt_to_pull_image ctx tag platform w =
      let (auth, w') = registry_auth tag (G.docker_image_auth ctx tag w) in
      (do
        pull ← G.retry_pull ctx (λ e. G.printf (pull_failed e)) (pull_once ctx tag platform auth)
        drained pull)
        w'

  -- An error of the options is permanent.
  unfoldable pub build_with : Ctx → Result Options × W → Attempt (Options × Reader) × W
  unfolding attempted
  build_with ctx (err e, w) = (permanent (wrap "build options" e), w)
  build_with ctx (ok o, w) =
      let (a, w') =
        attempted permanent_client_errors (wrap "build image") G.close (
          let (r, v) = G.image_build ctx o w in (elim r [ err e ↦ err e | ok b ↦ ok (o, b) ], v)) in
      (a, G.close_context o w')

  unfoldable pub build_image : Ctx → Try W String
  unfolding ◌>>=◌ build_with checked_by
  build_image ctx = do
    (o, body) ←
        G.retry_build ctx (λ e. G.printf (build_failed e)) (λ w. build_with ctx (G.build_options w))
    λ w.
        let (r, w') = checked_by (wrap "build image") (G.display body w) in
        (elim r [ err e ↦ err e | ok u ↦ ok (G.first_tag o) ], G.close_body body w')

  unfoldable pub platform_of : String → Result (Option Platform)
  platform_of platform = if platform =s "" then ok none else elim (G.parse_platform platform) [
    | err e ↦ err (wrap ("invalid platform " <> platform) e)
    | ok p ↦ ok (some p)
  ]

  unfoldable pub described : Option Platform → Option (String × String)
  described none = none
  described (some p) = some (G.architecture p, G.os p)

  unfoldable pub pull_decision : Option Platform → Result ImageInspect × W → Result Bool × W
  unfolding platform_differs described
  pull_decision platform (err e, w) = ((if G.is_err_not_found e then ok true else err e), w)
  pull_decision platform (ok i, w) = (ok (platform_differs (described platform) i), w)

  unfoldable pub should_pull_image : Ctx → Bool → String → Option Platform → Try W Bool
  unfolding pull_decision
  should_pull_image ctx always_pull_image image platform w =
      if always_pull_image
      then (ok true, w)
      else pull_decision platform (G.image_inspect ctx image w)

  unfoldable pub pull_if : Ctx → String → String → Bool → Try W Unit
  unfolding attempt_to_pull_image
  pull_if ctx image platform b w =
      if b then attempt_to_pull_image ctx image platform w else (ok tt, w)

  unfoldable pub at_once : {A : Type 0} → Result A → Try W A
  at_once r w = (r, w)

  -- The end of the branch without a build, from the decision on, from the platform on, and from the
  -- name on.
  unfoldable pub pull_decided :
      Ctx → String → String → Option Platform → Bool → Try W (String × Option Platform)
  unfolding ◌>>◌ pull_if
  pull_decided ctx platform name p b = do pull_if ctx name platform b; done (name, p)

  unfoldable pub pull_described :
      Ctx → String → Bool → String → Option Platform → Try W (String × Option Platform)
  unfolding ◌>>=◌ should_pull_image pull_decided
  pull_described ctx platform always_pull_image name p = do
    b ← should_pull_image ctx always_pull_image name p
    pull_decided ctx platform name p b

  unfoldable pub pull_named : Ctx → String → Bool → String → Try W (String × Option Platform)
  unfolding ◌>>=◌ at_once platform_of pull_described
  pull_named ctx platform always_pull_image name = do
    p ← at_once (platform_of platform)
    pull_described ctx platform always_pull_image name p

  unfoldable pub pulled_image :
      Ctx → List ImageSubstitutor → String → String → Bool → Try W (String × Option Platform)
  unfolding ◌>>=◌ at_once image_name pull_named
  pulled_image ctx substitutors image platform always_pull_image = do
    name ← at_once (image_name substitutors image)
    pull_named ctx platform always_pull_image name

  -- The image of a request, and its platform: a built image has none.
  unfoldable pub image_of :
      {A R F : Type 0}
      → Ctx
      → List ImageSubstitutor
      → ContainerRequest A R F
      → Try W (String × Option Platform)
  unfolding ◌>>=◌ build_image pulled_image should_build_image
  image_of ctx substitutors req =
      if should_build_image req
      then (do tag ← build_image ctx; done (tag, none))
      else pulled_image ctx substitutors req.image req.image_platform req.always_pull_image
