-- ===== src/Auth/Lookups.antt =====
-- docker_auth.go: the goroutines of getDockerAuthConfigs, as steps of their shared state.
-- The channel of results has room for all of them, so that a send never waits.
pub mod Keys
pub mod Order
pub mod Ends
use testcontainers_go.Base.{
  ℕ, suc, String, Bool, true, false, ◌≡◌, Option, none, some, List, [], ◌∷◌, ◌++◌, map,
  if◌then◌else◌,
}
use testcontainers_go.Base.Dict.{Dict, lookup, insert}
use testcontainers_go.Errors.{Error, Result, ok, err}
use testcontainers_go.Auth.{
  AuthConfig, no_auth, Credentials, DockerConfig, AuthConfigResult, cache_key, stored,
  needs_credentials, with_auth, with_credentials, collected_configs,
}

-- The goroutine of an entry of the configuration, and that of a credential helper.
pub data Job : Type 0 where
  auth_job : String → AuthConfig → Job
  helper_job : String → Job

unfoldable pub auth_jobs : Dict AuthConfig → List Job → List Job
auth_jobs [] js = js
auth_jobs ((k, v) ∷ cs) js = auth_job k v ∷ auth_jobs cs js

unfoldable pub helper_jobs : Dict String → List Job
helper_jobs [] = []
helper_jobs ((k, v) ∷ hs) = helper_job k ∷ helper_jobs hs

unfoldable pub jobs_of : DockerConfig → List Job
unfolding auth_jobs helper_jobs
jobs_of cfg = auth_jobs cfg.auth_configs (helper_jobs cfg.credential_helpers)

abbrev pub hostname : Job → String
hostname (auth_job k ac) = k
hostname (helper_job k) = k

unfoldable pub asks_store : Job → Bool
unfolding needs_credentials
asks_store (auth_job k ac) = needs_credentials ac
asks_store (helper_job k) = true

-- What a goroutine sends, by what the cache or the store answered.
unfoldable pub sent : (String → String) → Job → Result Credentials → AuthConfigResult
unfolding needs_credentials with_credentials with_auth
sent base64 (auth_job k ac) c =
    if needs_credentials ac then with_credentials k ac c else ok (k, with_auth base64 ac)
sent base64 (helper_job k) c = with_credentials k no_auth c

-- A goroutine has not looked into the cache, asks_store the credential store, or is about to send.
pub data Lookup : Type 0 where
  queued : Job → Lookup
  requesting : Job → Lookup
  ready : AuthConfigResult → Lookup

-- The cache, the goroutines that have not ended, and what they sent.
pub data Lookups : Type 0 where
  lookups : Dict Credentials → List Lookup → List AuthConfigResult → Lookups

unfoldable pub launched : Dict Credentials → List Job → Lookups
launched cache jobs = lookups cache (map queued jobs) []

module _ (request : String → Result Credentials) (base64 : String → String)
    (config_key : String) where
  pub data Step : Lookups → Lookups → Type 0 where
    complete :
        (before after : List Lookup) (j : Job) (c : Result Credentials) {m : Dict Credentials}
        {rs : List AuthConfigResult}
        → asks_store j ≡ false
        → Step
            (lookups m (before ++ queued j ∷ after) rs)
            (lookups m (before ++ ready (sent base64 j c) ∷ after) rs)
    hit :
        (before after : List Lookup) (j : Job) (c : Credentials) {m : Dict Credentials}
        {rs : List AuthConfigResult}
        → asks_store j ≡ true
        → lookup (cache_key config_key (hostname j)) m ≡ some c
        → Step
            (lookups m (before ++ queued j ∷ after) rs)
            (lookups m (before ++ ready (sent base64 j (ok c)) ∷ after) rs)
    miss :
        (before after : List Lookup) (j : Job) {m : Dict Credentials} {rs : List AuthConfigResult}
        → asks_store j ≡ true
        → lookup (cache_key config_key (hostname j)) m ≡ none
        → Step
            (lookups m (before ++ queued j ∷ after) rs)
            (lookups m (before ++ requesting j ∷ after) rs)
    answer :
        (before after : List Lookup) (j : Job) {m : Dict Credentials} {rs : List AuthConfigResult}
        → Step (lookups m (before ++ requesting j ∷ after) rs) (
            lookups
              (stored config_key (hostname j) (request (hostname j)) m).1
              (before
                ++ ready (sent base64 j (stored config_key (hostname j) (request (hostname j)) m).0)
                  ∷ after)
              rs)
    send :
        (before after : List Lookup) (r : AuthConfigResult) {m : Dict Credentials}
        {rs : List AuthConfigResult}
        → Step
            (lookups m (before ++ ready r ∷ after) rs)
            (lookups m (before ++ after) (rs ++ r ∷ []))

  -- So many steps.
  pub data Steps : ℕ → Lookups → Lookups → Type 0 where
    here : {s : Lookups} → Steps 0 s s
    next : {n : ℕ} {s t u : Lookups} → Step s t → Steps n t u → Steps (suc n) s u

  -- What a goroutine sends if the store is asked each time.
  unfoldable pub asked : Job → AuthConfigResult
  unfolding sent stored
  asked j = sent base64 j (stored config_key (hostname j) (request (hostname j)) []).0

  -- The configurations without goroutines or a cache: one registry after the other.
  unfoldable pub asked_in_turn : List Job → Result (Dict AuthConfig)
  unfolding asked collected_configs
  asked_in_turn jobs = collected_configs (map asked jobs)
