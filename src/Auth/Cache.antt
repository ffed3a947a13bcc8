-- ===== src/Auth/Cache.antt =====
-- What the cache of credentials keeps, and when there is a configuration at all.
use testcontainers_go.Base.{
  String, =s_iff, ◌≡◌, ◌≢◌, refl, sym, ap, ◌∙◌, some, arith, inl, inr, Option-cases,
}
use testcontainers_go.Base.Dict.{Dict, lookup, lookup-insert}
use testcontainers_go.Errors.{Error, wrap, Result, ok, err}
use testcontainers_go.Auth.{
  Credentials, DockerConfig, cache_key, stored, entry_or, get, Surroundings, configuration,
  config_and_key, keyed, config_file_key, key_of_path, hashed, get_docker_config,
}

ok-inj : {d c : Credentials} → ok d ≡ ok c → d ≡ c
ok-inj h = cc

stored-lookup :
    (request : String → Result Credentials) (h k : String) (r : Result Credentials)
    {c : Credentials} (m : Dict Credentials) {m' : Dict Credentials}
    → stored k h r m ≡ (ok c, m')
    → lookup (cache_key k h) m' ≡ some c
unfolding stored
stored-lookup request h k (err e) m p = cc
stored-lookup request h k (ok c) m p = ground (
  arith,
  p,
  lookup-insert (cache_key k h) (cache_key k h) c m,
  =s_iff (cache_key k h) (cache_key k h),
)

-- Credentials that were asked for without an error are given again from the cache, whatever a
-- request would answer then.
pub get-get :
    (request request' : String → Result Credentials) (hostname config_key : String)
    (m : Dict Credentials) {m' : Dict Credentials} {c : Credentials}
    → get request hostname config_key m ≡ (ok c, m')
    → get request' hostname config_key m' ≡ (ok c, m')
unfolding get entry_or
get-get request request' h k m {m'} {c} p = elim (Option-cases (lookup (cache_key k h) m)) [
  | inl n ↦ rw (stored-lookup request h k (request h) m (rw n at p)) refl
  | inr (d, e) ↦
      let q : ◌≡◌ {A = Result Credentials × Dict Credentials} (ok d, m) (ok c, m') = rw e at p in
      let l : lookup (cache_key k h) m' ≡ some c =
        sym (ap (λ x. lookup (cache_key k h) x) (ap (λ x. x.1) q))
        ∙ e
        ∙ ap some (ok-inj (ap (λ x. x.0) q)) in
      rw l refl
]

err-ne-ok : {A : Type 0} {e : Error} {a : A} → err e ≢ ok a
err-ne-ok = λ h. cc

module _ {F : Type 0} (S : Surroundings F) where
  no-configuration :
      (r : Result DockerConfig) (e : Error) (p : DockerConfig × String)
      → config_file_key S ≡ err e
      → config_and_key S r ≢ ok p
  unfolding config_and_key keyed
  no-configuration (err f) e p h = λ q. cc
  no-configuration (ok cfg) e p h = λ q. err-ne-ok (rw h at q)

  -- If the file of the docker configuration cannot be opened, there is no configuration, whatever
  -- the variable DOCKER_AUTH_CONFIG holds.
  pub configuration_without_file :
      (path : String) (e : Error)
      → S.config_path ≡ ok path
      → S.open_file path ≡ err e
      → (p : DockerConfig × String) → configuration S ≢ ok p
  unfolding configuration config_file_key key_of_path hashed
  configuration_without_file path e h k p =
      no-configuration (get_docker_config S) (wrap "open config file" e) p
        (ap (key_of_path S) h ∙ ap (hashed S) k)
