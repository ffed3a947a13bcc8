-- ===== src/Tests/Logins.antt =====
-- docker_auth.go and container.go: the theorems on credentials and builds at concrete inputs.
use mathlib.Core.Option.{some_inj}
use testcontainers_go.Base.{
  ap, inl, inr, Bool-cases, ℕ, ◌≡◌, ◌≢◌, refl, String, ◌=s◌, ◌<>◌, mem_text, true, false, Option,
  none, some, List, [], ◌∷◌, ◌++◌, if◌then◌else◌, M,
}
use testcontainers_go.Base.Dict.{Dict, lookup}
use testcontainers_go.Errors.{new, Result, ok, err}
use testcontainers_go.Errors.Flow.{Try}
use testcontainers_go.Auth.{
  AuthConfig, no_auth, Credentials, AuthConfigResult, Surroundings, configuration, cache_key,
  stored, collected_configs,
}
use testcontainers_go.Auth.Cache.{configuration_without_file}
use testcontainers_go.Auth.Collecting.{SameConfigs}
use testcontainers_go.Auth.Images.{Urls, extract_registry, get_registry_auth}
use testcontainers_go.Auth.Lookups.{
  Job, auth_job, helper_job, asks_store, sent, queued, Lookups, lookups, launched, hit, miss,
  answer, send, Steps, here, next, asked_in_turn,
}
use testcontainers_go.Auth.Lookups.Order.{IsSound, lookups-SameConfigs}
use testcontainers_go.Build.{Files}
use testcontainers_go.Build.Options.{
  ImageBuildOptions, BuildRequest, auths_of_images, build_options,
}
use testcontainers_go.Build.Options.Laws.{or_else, auths_of_images_lem}
use testcontainers_go.Provider.Images.{Registry}

abbrev hub_credentials : Credentials
hub_credentials = record { username = "u"; password = "p" }

-- The credential store knows every host.
abbrev request : String → Result Credentials
request h = ok hub_credentials

abbrev plain : String → String
plain s = s

-- One entry without credentials, and one helper.
abbrev jobs : List Job
jobs = auth_job "a" no_auth ∷ helper_job "b" ∷ []

abbrev entry_of : String → AuthConfigResult
entry_of k = ok (k, record no_auth { username = "u"; password = "p" })

abbrev one_cached : Dict Credentials
one_cached = (cache_key "k" "b", hub_credentials) ∷ []

abbrev both_cached : Dict Credentials
both_cached = one_cached ++ (cache_key "k" "a", hub_credentials) ∷ []

absurd-none : {A : Type 0} {c : Credentials} → ◌≡◌ {A = Option Credentials} none (some c) → A
absurd-none h = cc

IsSound-cached : IsSound request plain "k" one_cached
unfolding lookup
IsSound-cached h c e = elim (Bool-cases (cache_key "k" "b" =s cache_key "k" h)) [
  | inl t ↦ ap ok (some_inj.0 (rw t at e))
  | inr f ↦ absurd-none (rw f at e)
]

-- The helper is served by the cache, and sends first.
run :
    Steps request plain "k" 5
      (launched one_cached jobs)
      (lookups both_cached [] (entry_of "b" ∷ entry_of "a" ∷ []))
unfolding launched asks_store sent stored lookup
run =
    next (hit (queued (auth_job "a" no_auth) ∷ []) [] (helper_job "b") hub_credentials refl refl) (
      next (send (queued (auth_job "a" no_auth) ∷ []) [] (entry_of "b")) (
        next (miss [] [] (auth_job "a" no_auth) refl refl)
          (next (answer [] [] (auth_job "a" no_auth)) (next (send [] [] (entry_of "a")) here))))

lookups-SameConfigs_example :
    IsSound request plain "k" both_cached
    × SameConfigs
        (asked_in_turn request plain "k" jobs)
        (collected_configs (entry_of "b" ∷ entry_of "a" ∷ []))
lookups-SameConfigs_example =
    lookups-SameConfigs request plain "k" jobs one_cached (refl, (refl, tt)) IsSound-cached run

-- A registry that stands both in the entries and in the helpers: the last to send prevails.
last_prevails :
    collected_configs (ok ("a", no_auth) ∷ entry_of "a" ∷ [])
    ≡ ok (("a", record no_auth { username = "u"; password = "p" }) ∷ [])
unfolding collected_configs
last_prevails = refl

first_overwritten :
    collected_configs (entry_of "a" ∷ ok ("a", no_auth) ∷ []) ≡ ok (("a", no_auth) ∷ [])
unfolding collected_configs
first_overwritten = refl

-- The variable holds a configuration, and there is no file.
abbrev variable_only : Surroundings ℕ
variable_only = record {
  docker_auth_config = "{}";
  unmarshal = λ s. ok (record { auth_configs = []; credential_helpers = [] });
  load_default_config = err (new "no file");
  config_path = ok "/root/.docker/config.json";
  open_file = λ p. err (new "no such file");
  md5 = λ f. ok "";
}

configuration_without_file_example :
    configuration variable_only ≢ ok (record { auth_configs = []; credential_helpers = [] }, "k")
configuration_without_file_example =
    configuration_without_file variable_only "/root/.docker/config.json" (new "no such file") refl
      refl (record { auth_configs = []; credential_helpers = [] }, "k")

-- Every image is of the registry "r.io".
abbrev urls : Urls
urls = record {
  parse = λ s. ok (record { scheme = "https"; host = s; path = "" });
  rx_url = λ s. true;
  registry_match = λ i. some "r.io";
}

abbrev default_registry_of : ℕ → M ℕ String
default_registry_of ctx w = ("docker.io", w)

auths_of_images_lem_example :
    (found : Dict AuthConfig) × (v : ℕ) × (auths_of_images urls default_registry_of 0
        (("r.io", no_auth) ∷ [])
        ("r.io/x" ∷ [])
        []
        5
      ≡ (ok found, v))
    × ((k : String)
        → lookup k found ≡ (
            if mem_text k (extract_registry urls "r.io/x" "docker.io" ∷ [])
            then or_else (get_registry_auth urls k (("r.io", no_auth) ∷ [])) none
            else none))
unfolding lookup
auths_of_images_lem_example =
    auths_of_images_lem urls default_registry_of 0 "docker.io" (λ w. refl) (("r.io", no_auth) ∷ [])
      ("r.io/x" ∷ []) [] 5

-- The world is the number of entries that are left in the archive.
abbrev files : Files ℕ ℕ ℕ ℕ
files = record {
  abs = λ p w. (ok p, w);
  join_path = λ p q. p <> "/" <> q;
  open_file = λ p w. (ok 0, w);
  close = λ f w. w;
  lines = λ f w. (ok [], w);
  text = λ bs. "";
  ignore_patterns = λ f w. (ok [], w);
  tar_with_options = λ p x i w. (ok 0, w);
  archive_context = λ a. a;
  tar_headers = λ a w. ([], none);
  tar_next = λ a n w. w;
  tar_lines = λ a w. (ok [], w);
  seek_start = λ a w. (none, w);
  new_uuid = λ w. ("u", w);
  to_lower = λ s. s;
}

abbrev from_archive : BuildRequest ℕ ℕ
from_archive = record {
  from_dockerfile = record {
    context = "";
    context_archive = some 7;
    dockerfile = "";
    repo = "r";
    tag = "t";
    keep_image = false;
  };
  build_args = [];
  build_options_modifier = none;
  image_substitutors = [];
}

abbrev daemon : Registry ℕ ℕ ℕ (ImageBuildOptions ℕ) ℕ ℕ
daemon = record {
  image_inspect = λ ctx i w. (err (new "none"), w);
  is_err_not_found = λ e. true;
  docker_image_auth = λ ctx i w. (("", err (new "none")), w);
  encoded = λ a. ok "";
  image_pull = λ ctx t p a w. (ok 0, w);
  image_build = λ ctx o w. (err (new "timeout"), w);
  build_options = λ w. (err (new "unused"), w);
  first_tag = λ o. "";
  close_context = λ o w. w;
  read_all = λ r w. (none, w);
  display = λ r w. (none, w);
  close_body = λ r w. w;
  close = λ w. w;
  printf = λ t w. w;
  retry_pull = λ ctx f m w. (err (new "unused"), w);
  retry_build = λ ctx f m w. (err (new "unused"), w);
  parse_platform = λ s. ok 0;
  architecture = λ p. "";
  os = λ p. "";
}

abbrev no_configs : Try ℕ (Dict AuthConfig)
no_configs w = (ok [], w)
