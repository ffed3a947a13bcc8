-- ===== src/Build/Options.antt =====
-- container.go: the options of the build of an image, with the credentials of the images that its
-- Dockerfile names.
pub mod Laws
use testcontainers_go.Base.{
  String, ◌<>◌, Bool, true, false, Option, none, some, List, [], ◌∷◌, if◌then◌else◌, M,
}
use testcontainers_go.Base.Dict.{Dict, insert, insert_all}
use testcontainers_go.Errors.{Error, wrap, Result, ok, err, is}
use testcontainers_go.Errors.Flow.{Try, and_then, ◌>>=◌, done, wrapped, mapped_error}
use testcontainers_go.Request.{FromDockerfile}
use testcontainers_go.Options.{ImageSubstitutor, image_name}
use testcontainers_go.Labels.{default_labels}
use testcontainers_go.Auth.{AuthConfig}
use testcontainers_go.Auth.Images.{Urls, image_auth}
use testcontainers_go.Build.{
  Files, BuildArgs, get_dockerfile, get_repo, get_tag, docker_file_images, get_context,
}

-- `types.ImageBuildOptions`, as far as the program sets it. A nil map is the empty one.
pub record ImageBuildOptions (Reader : Type 0) : Type 0 where
  pub remove : Bool
  pub force_remove : Bool
  pub build_args : BuildArgs
  pub dockerfile : String
  pub auth_configs : Dict AuthConfig
  pub tags : List String
  pub labels : Dict String
  pub context : Option Reader

abbrev pub first_options : {Reader : Type 0} → ImageBuildOptions Reader
first_options = record {
  remove = true;
  force_remove = true;
  build_args = [];
  dockerfile = "";
  auth_configs = [];
  tags = [];
  labels = [];
  context = none;
}

-- The fields of a request that only BuildOptions reads.
pub record BuildRequest (A Reader : Type 0) : Type 0 where
  pub from_dockerfile : FromDockerfile A
  pub build_args : BuildArgs
  pub build_options_modifier : Option (ImageBuildOptions Reader → ImageBuildOptions Reader)
  pub image_substitutors : List ImageSubstitutor

abbrev pub credentials_missing : String
credentials_missing = "ErrCredentialsNotFound"

-- What one image adds to the credentials.
unfoldable pub auth_added :
    String → String × Result AuthConfig → Dict AuthConfig → Result (Dict AuthConfig)
unfolding insert
auth_added image (registry, ok a) auths = ok (insert registry a auths)
auth_added image (registry, err e) auths =
    if is e credentials_missing
    then ok auths
    else err (wrap ("docker image auth \"" <> image <> "\"") e)

unfoldable pub by_modifier :
    {Reader : Type 0}
    → Option (ImageBuildOptions Reader → ImageBuildOptions Reader)
    → ImageBuildOptions Reader
    → ImageBuildOptions Reader
by_modifier none o = o
by_modifier (some f) o = f o

-- The arguments and the Dockerfile are set after the modifier.
unfoldable pub mandatory : {A Reader : Type 0} → BuildRequest A Reader → ImageBuildOptions Reader
unfolding by_modifier get_dockerfile
mandatory c = record (by_modifier c.build_options_modifier first_options) {
  build_args = c.build_args;
  dockerfile = get_dockerfile c.from_dockerfile;
}

-- What is set from the credentials on: the tag of the request is in front of those of the modifier.
unfoldable pub completed :
    {A Reader : Type 0}
    → String
    → BuildRequest A Reader
    → ImageBuildOptions Reader
    → Dict AuthConfig
    → String
    → Reader
    → ImageBuildOptions Reader
unfolding insert_all default_labels
completed session_id c o auths tag context = record o {
  auth_configs = insert_all auths o.auth_configs;
  tags = tag ∷ o.tags;
  labels = if c.from_dockerfile.keep_image then o.labels else default_labels session_id;
  context = some context;
}

-- `default` is `defaultRegistryFn`.
module _ {Ctx W : Type 0} (U : Urls) (default : Ctx → M W String) (background : Ctx) where
  -- The loop over the images.
  unfoldable pub auths_of_images :
      Dict AuthConfig → List String → Dict AuthConfig → Try W (Dict AuthConfig)
  unfolding and_then image_auth auth_added
  auths_of_images configs [] auths w = (ok auths, w)
  auths_of_images configs (image ∷ images) auths w =
      let (a, v) = image_auth U default background image configs w in
      and_then (auth_added image a auths, v) (λ auths'. auths_of_images configs images auths')

-- `auth_configs` is `getDockerAuthConfigs`.
module _ {A F Reader Ctx W : Type 0} (B : Files A F Reader W) (U : Urls)
    (default : Ctx → M W String) (auth_configs : Try W (Dict AuthConfig)) (background : Ctx)
    (session_id : String) where
  unfoldable pub returned : {X : Type 0} → M W X → Try W X
  returned m w = let (x, v) = m w in (ok x, v)

  -- `getAuthConfigsFromDockerfile`
  unfoldable pub auth_configs_from_dockerfile :
      BuildArgs → FromDockerfile A → Try W (Dict AuthConfig)
  unfolding ◌>>=◌ and_then wrapped mapped_error docker_file_images auths_of_images
  auth_configs_from_dockerfile args c = do
    images ← wrapped (wrap "docker file images") (docker_file_images B args c)
    configs ← auth_configs
    auths_of_images U default background configs images []

  -- The tag of the request, and what the substitutors make of it.
  unfoldable pub built_tag : BuildRequest A Reader → Try W String
  unfolding ◌>>=◌ and_then returned get_repo get_tag image_name
  built_tag c = do
    repo ← returned (get_repo B c.from_dockerfile)
    tag ← returned (get_tag B c.from_dockerfile)
    λ w. (image_name c.image_substitutors (repo <> ":" <> tag), w)

  -- `BuildOptions`
  unfoldable pub build_options : BuildRequest A Reader → Try W (ImageBuildOptions Reader)
  unfolding ◌>>=◌ and_then wrapped mapped_error auth_configs_from_dockerfile mandatory built_tag
      get_context completed
  build_options c = do
    auths ←
        wrapped (wrap "auth configs from Dockerfile")
          (auth_configs_from_dockerfile c.build_args c.from_dockerfile)
    tag ← built_tag c
    context ← get_context B c.from_dockerfile
    done (completed session_id c (mandatory c) auths tag context)
