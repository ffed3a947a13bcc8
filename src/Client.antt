-- ===== src/Client.antt =====
-- docker_client.go and internal/core/client.go: the client that tells of its daemon once.
-- `none` is a panic.
use testcontainers_go.Base.{
  String, ◌<>◌, ◌=s◌, ◌==◌, Option, none, some, List, [], ◌∷◌, ◌++◌, if◌then◌else◌, ◌≡◌, sym, ap,
  ◌∙◌,
}
use testcontainers_go.Base.Dict.{Dict}
use testcontainers_go.Errors.{wrap, Result, ok, err}
use testcontainers_go.Errors.Flow.{Try}
use testcontainers_go.Config.{Config}
use testcontainers_go.Labels.{version}

-- The options of the Docker client that the program uses, and those of its users.
pub data Opt (O : Type 0) : Type 0 where
  from_env : Opt O
  with_api_version_negotiation : Opt O
  with_host : String → Opt O
  with_tls_client_config : String → String → String → Opt O
  with_http_headers : Dict String → Opt O
  user_opt : O → Opt O

-- What the clients stand on. `print` writes the message about the daemon, to which the text belongs
-- that lists its labels; it asks for the host of the daemon too.
pub record Clients (O Client Info W : Type 0) : Type 0 where
  pub config : Config
  pub must_extract_docker_host : W → Option (String × W)
  pub join_path : String → String → String
  pub project_path : String
  pub session_id : String
  pub new_client_with_opts : List (Opt O) → Try W Client
  pub close : Client → W → W
  pub ask_info : Client → Try W Info
  pub labels_of : Info → List String
  pub print : Client → Info → String → W → Option W

unfoldable pub label_lines : List String → String
label_lines [] = ""
label_lines (lb ∷ lbs) = "\n    " <> lb <> label_lines lbs

unfoldable pub info_labels : List String → String
unfolding label_lines
info_labels [] = ""
info_labels (lb ∷ lbs) = "\n  Labels:" <> label_lines (lb ∷ lbs)

module _ {O Client Info W : Type 0} (C : Clients O Client Info W) where
  unfoldable pub tls_opts : List (Opt O)
  tls_opts =
      if C.config.tls_verify == 1
      then with_tls_client_config (C.join_path C.config.cert_path "ca.pem")
          (C.join_path C.config.cert_path "cert.pem") (C.join_path C.config.cert_path "key.pem")
        ∷ []
      else []

  unfoldable pub host_opts : String → List (Opt O)
  unfolding tls_opts
  host_opts docker_host = if docker_host =s "" then [] else with_host docker_host ∷ tls_opts

  unfoldable pub client_opts : String → List (Opt O) → List (Opt O)
  unfolding host_opts
  client_opts docker_host ops =
      (from_env ∷ with_api_version_negotiation ∷ [])
      ++ host_opts docker_host
      ++ (with_http_headers (
            ("x-tc-pp", C.project_path)
            ∷ ("x-tc-sid", C.session_id)
            ∷ ("User-Agent", "tc-go/" <> version)
            ∷ [])
          ∷ [])
      ++ ops

  unfoldable pub client_at : List (Opt O) → Option (String × W) → Option (Result Client × W)
  unfolding client_opts
  client_at ops none = none
  client_at ops (some (docker_host, w)) =
      some (C.new_client_with_opts (client_opts docker_host ops) w)

  -- `NewClient`
  unfoldable pub new_client : List (Opt O) → W → Option (Result Client × W)
  unfolding client_at
  new_client ops w = client_at ops (C.must_extract_docker_host w)

  -- The information that is kept, and the world.
  abbrev pub KeptInfo : Type 0
  KeptInfo = Option Info × W

  unfoldable pub printed_info : Info → Option W → Option (Result Info × KeptInfo)
  printed_info i none = none
  printed_info i (some w) = some (ok i, (some i, w))

  unfoldable pub asked_info : Client → Result Info × W → Option (Result Info × KeptInfo)
  unfolding printed_info info_labels
  asked_info c (err e, w) = some (err (wrap "failed to retrieve docker info" e), (none, w))
  asked_info c (ok i, w) = printed_info i (C.print c i (info_labels (C.labels_of i)) w)

  -- `Info`, under its lock.
  unfoldable pub info : Client → KeptInfo → Option (Result Info × KeptInfo)
  unfolding asked_info
  info c (some i, w) = some (ok i, (some i, w))
  info c (none, w) = asked_info c (C.ask_info c w)

  unfoldable pub client_closed : Result Client × KeptInfo → Result Client × KeptInfo
  client_closed (err e, k) = (err e, k)
  client_closed (ok c, (i, w)) = (ok c, (i, C.close c w))

  unfoldable pub fallback_opts : List (Opt O) → List (Opt O)
  fallback_opts [] = from_env ∷ with_api_version_negotiation ∷ []
  fallback_opts (o ∷ opts) = o ∷ opts

  unfoldable pub told_or_fallback :
      Client → List (Opt O) → Option (Result Info × KeptInfo) → Option (Result Client × KeptInfo)
  unfolding client_closed fallback_opts
  told_or_fallback c opts none = none
  told_or_fallback c opts (some (ok i, k)) = some (client_closed (ok c, k))
  told_or_fallback c opts (some (err e, (i, w))) =
      let (r, v) = C.new_client_with_opts (fallback_opts opts) w in some (client_closed (r, (i, v)))

  unfoldable pub client_told :
      List (Opt O) → Option Info → Option (Result Client × W) → Option (Result Client × KeptInfo)
  unfolding told_or_fallback info
  client_told opts i none = none
  client_told opts i (some (err e, w)) = some (err e, (i, w))
  client_told opts i (some (ok c, w)) = told_or_fallback c opts (info c (i, w))

  -- `NewDockerClientWithOpts`
  unfoldable pub new_docker_client_with_opts :
      List (Opt O) → KeptInfo → Option (Result Client × KeptInfo)
  unfolding client_told new_client
  new_docker_client_with_opts opts (i, w) = client_told opts i (new_client opts w)

  printed_info-kept :
      (j i : Info) (o : Option W) (l : KeptInfo) → printed_info j o ≡ some (ok i, l) → l.0 ≡ some i
  unfolding printed_info
  printed_info-kept j i none l h = absurd cc
  printed_info-kept j i (some w) l h = cc

  asked_info-kept :
      (c : Client) (i : Info) (r : Result Info × W) (l : KeptInfo)
      → asked_info c r ≡ some (ok i, l)
      → l.0 ≡ some i
  unfolding asked_info
  asked_info-kept c i (err e, w) l h = absurd cc
  asked_info-kept c i (ok j, w) l h = printed_info-kept j i _ l h

  info-kept : (c : Client) (i : Info) (k l : KeptInfo) → info c k ≡ some (ok i, l) → l.0 ≡ some i
  unfolding info
  info-kept c i (some j, w) l h = cc
  info-kept c i (none, w) l h = asked_info-kept c i _ l h

  -- What a call of Info without an error returns, every later one returns, of any client, without
  -- asking a daemon.
  info-info :
      (c d : Client) (k l : KeptInfo) (i : Info)
      → info c k ≡ some (ok i, l)
      → info d l ≡ some (ok i, l)
  unfolding info
  info-info c d k l i h =
      ap (λ o. info d (o, l.1)) (info-kept c i k l h)
      ∙ ap (λ o. some (ok i, (o, l.1))) (sym (info-kept c i k l h))
