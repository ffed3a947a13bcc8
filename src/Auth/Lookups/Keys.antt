-- ===== src/Auth/Lookups/Keys.antt =====
-- Under which key a goroutine of getDockerAuthConfigs finds a configuration.
use testcontainers_go.Base.{
  String, ◌=s◌, =s_iff, mem_text, Bool, true, false, ◌≡◌, refl, ap, ◌∙◌, none, List, [], ◌∷◌, map,
  arith, if◌then◌else◌,
}
use testcontainers_go.Base.Dict.{IsMap, lookup}
use testcontainers_go.Errors.{Result, ok, err}
use testcontainers_go.Auth.{
  AuthConfig, no_auth, Credentials, AuthConfigResult, with_credentials, needs_credentials,
}
use testcontainers_go.Auth.Collecting.{oks}
use testcontainers_go.Auth.Lookups.{Job, auth_job, helper_job, hostname, sent, asked}

-- No registry stands twice.
abbrev pub Distinct : List String → Type 0
Distinct [] = Unit
Distinct (h ∷ hs) = (mem_text h hs ≡ false) × Distinct hs

-- A configuration is found under the key.
abbrev KeyedBy : String → AuthConfigResult → Type 0
KeyedBy k (err e) = Unit
KeyedBy k (ok p) = p.0 ≡ k

with_credentials-KeyedBy :
    (k : String) (ac : AuthConfig) (c : Result Credentials) → KeyedBy k (with_credentials k ac c)
unfolding with_credentials
with_credentials-KeyedBy k ac (err e) = tt
with_credentials-KeyedBy k ac (ok c) = refl

if-KeyedBy :
    (k : String) (b : Bool) (r : AuthConfigResult) (c : AuthConfig)
    → KeyedBy k r
    → KeyedBy k (if b then r else ok (k, c))
if-KeyedBy k true r c h = h
if-KeyedBy k false r c h = refl

sent-KeyedBy :
    (base64 : String → String) (j : Job) (c : Result Credentials)
    → KeyedBy (hostname j) (sent base64 j c)
unfolding sent
sent-KeyedBy base64 (auth_job k ac) c =
    if-KeyedBy k (needs_credentials ac) _ _ (with_credentials-KeyedBy k ac c)
sent-KeyedBy base64 (helper_job k) c = with_credentials-KeyedBy k no_auth c

lookup-oks :
    (h k : String) (r : AuthConfigResult) (rs : List AuthConfigResult)
    → KeyedBy k r
    → (h =s k) ≡ false
    → lookup h (oks (r ∷ rs)) ≡ lookup h (oks rs)
unfolding lookup
lookup-oks h k (err e) rs p q = refl
lookup-oks h k (ok (j, c)) rs p q = ground (arith, p, =s_iff j h, =s_iff h k)

IsMap-oks :
    (k : String) (r : AuthConfigResult) (rs : List AuthConfigResult)
    → KeyedBy k r
    → lookup k (oks rs) ≡ none
    → IsMap (oks rs)
    → IsMap (oks (r ∷ rs))
IsMap-oks k (err e) rs p q m = m
IsMap-oks k (ok (j, c)) rs p q m = (ap (λ i. lookup i (oks rs)) p ∙ q, m)

module _ (request : String → Result Credentials) (base64 : String → String)
    (config_key : String) where
  asked-absent :
      (h : String) (js : List Job)
      → mem_text h (map hostname js) ≡ false
      → lookup h (oks (map (asked request base64 config_key) js)) ≡ none
  unfolding lookup asked
  asked-absent h [] n = refl
  asked-absent h (j ∷ js) n =
      lookup-oks h (hostname j) (asked request base64 config_key j) _ (sent-KeyedBy base64 j _)
        (ground (arith, n))
      ∙ asked-absent h js (ground (arith, n))

  pub asked-IsMap :
      (js : List Job)
      → Distinct (map hostname js)
      → IsMap (oks (map (asked request base64 config_key) js))
  unfolding asked
  asked-IsMap [] d = tt
  asked-IsMap (j ∷ js) (n, d) =
      IsMap-oks (hostname j) (asked request base64 config_key j) _ (sent-KeyedBy base64 j _)
        (asked-absent (hostname j) js n) (asked-IsMap js d)
