-- ===== src/Wait/Http.antt =====
-- wait/http.go: the HTTP strategy, its options, and what a response and the ports lead to.
pub mod Requests
pub mod Answers
use testcontainers_go.Base.{
  ℕ, String, ◌=s◌, mem_text, decimal, replace_first, Bool, true, false, not, is_none, Option, none,
  some, List, [], ◌∷◌, if◌then◌else◌, ◌==◌, M, ◌>>=◌, pure,
}
use testcontainers_go.Base.Dict.{Dict}
use testcontainers_go.Errors.{Error, new, quoted, Result, ok, err}
use testcontainers_go.Clock.{Ctx, Clock, with_timeout}
use testcontainers_go.Wait.Target.{
  Target, PortApi, PortEntry, accepts, check_target, default_poll_interval, timeout_or_default,
}
use testcontainers_go.Wait.Poll.{Step, again, stop, on_tick, poll}
use testcontainers_go.Wait.Port.{map_port, lower}
use testcontainers_go.Wait.HostPort.{join_host_port}

-- A TLS configuration is the one field that the strategy writes.
pub record TlsConfig : Type 0 where
  pub insecure_skip_verify : Bool

pub record HttpStrategy (Body : Type 0) : Type 0 where
  pub timeout : Option ℕ
  pub port : String
  pub path : String
  pub status_code_matcher : Option (ℕ → Bool)
  pub response_matcher : Option (Body → Bool)
  pub use_tls : Bool
  pub allow_insecure : Bool
  pub tls_config : Option TlsConfig
  pub method : String
  pub body : Option Body
  pub headers : Dict String
  pub response_headers_matcher : Option (Dict String → Bool)
  pub poll_interval : ℕ
  pub user_info : Option (String × String)
  pub force_ipv4_local_host : Bool

-- A parsed URL, as far as the strategy sets it.
pub record Url : Type 0 where
  pub scheme : String
  pub user : Option (String × String)
  pub host : String
  pub path : String

-- A request, with the TLS configuration of the client that sends it.
pub record HttpRequest : Type 0 where
  pub method : String
  pub url : Url
  pub content : String
  pub headers : Dict String
  pub tls : Option TlsConfig

-- `close_err` is what closing the body returns.
pub record HttpResponse (Body : Type 0) : Type 0 where
  pub status : ℕ
  pub body : Body
  pub headers : Dict String
  pub close_err : Option Error

unfoldable pub default_status_code_matcher : ℕ → Bool
default_status_code_matcher status = status == 200

-- The method to use: the switch over the methods of HTTP.
unfoldable pub method_of : String → Result String
method_of m =
    if mem_text m
      ("GET" ∷ "HEAD" ∷ "POST" ∷ "PUT" ∷ "PATCH" ∷ "DELETE" ∷ "CONNECT" ∷ "OPTIONS" ∷ "TRACE" ∷ [])
    then ok m
    else if m =s ""
    then ok "GET"
    else err (quoted "invalid http method" m)

unfoldable pub user_or :
    Option (String × String) → Option (String × String) → Option (String × String)
user_or none old = old
user_or (some u) old = some u

module _ {Body : Type 0} where
  unfoldable pub new_http_strategy : String → HttpStrategy Body
  unfolding default_status_code_matcher
  new_http_strategy path = record {
    timeout = none;
    port = "";
    path = path;
    status_code_matcher = some default_status_code_matcher;
    response_matcher = some (λ body. true);
    use_tls = false;
    allow_insecure = false;
    tls_config = none;
    method = "GET";
    body = none;
    headers = [];
    response_headers_matcher = some (λ headers. true);
    poll_interval = default_poll_interval;
    user_info = none;
    force_ipv4_local_host = false;
  }

  unfoldable pub with_tls : HttpStrategy Body → Bool → List TlsConfig → HttpStrategy Body
  with_tls ws use_tls [] = record ws { use_tls = use_tls }
  with_tls ws use_tls (c ∷ cs) = record ws {
    use_tls = use_tls;
    tls_config = if use_tls then some c else ws.tls_config;
  }

  unfoldable pub with_startup_timeout : HttpStrategy Body → ℕ → HttpStrategy Body
  with_startup_timeout ws d = record ws { timeout = some d }

  unfoldable pub with_port : HttpStrategy Body → String → HttpStrategy Body
  with_port ws p = record ws { port = p }

  unfoldable pub with_status_code_matcher : HttpStrategy Body → (ℕ → Bool) → HttpStrategy Body
  with_status_code_matcher ws f = record ws { status_code_matcher = some f }

  unfoldable pub with_response_matcher : HttpStrategy Body → (Body → Bool) → HttpStrategy Body
  with_response_matcher ws f = record ws { response_matcher = some f }

  unfoldable pub with_allow_insecure : HttpStrategy Body → Bool → HttpStrategy Body
  with_allow_insecure ws b = record ws { allow_insecure = b }

  unfoldable pub with_method : HttpStrategy Body → String → HttpStrategy Body
  with_method ws m = record ws { method = m }

  unfoldable pub with_body : HttpStrategy Body → Body → HttpStrategy Body
  with_body ws b = record ws { body = some b }

  unfoldable pub with_headers : HttpStrategy Body → Dict String → HttpStrategy Body
  with_headers ws hs = record ws { headers = hs }

  unfoldable pub with_response_headers_matcher :
      HttpStrategy Body → (Dict String → Bool) → HttpStrategy Body
  with_response_headers_matcher ws f = record ws { response_headers_matcher = some f }

  unfoldable pub with_basic_auth : HttpStrategy Body → String → String → HttpStrategy Body
  with_basic_auth ws user password = record ws { user_info = some (user, password) }

  unfoldable pub with_poll_interval : HttpStrategy Body → ℕ → HttpStrategy Body
  with_poll_interval ws d = record ws { poll_interval = d }

  unfoldable pub with_forced_ipv4_local_host : HttpStrategy Body → HttpStrategy Body
  with_forced_ipv4_local_host ws = record ws { force_ipv4_local_host = true }

  -- The guards after the response, in the order of the code.
  unfoldable pub http_decision : HttpStrategy Body → Result (HttpResponse Body) → Step
  http_decision ws (err e) = again
  http_decision ws (ok resp) =
      if not (accepts ws.status_code_matcher resp.status)
      then again
      else if not (accepts ws.response_matcher resp.body)
      then again
      else if not (accepts ws.response_headers_matcher resp.headers)
      then again
      else if is_none resp.close_err
      then stop none
      else again

  unfoldable pub scheme_of : HttpStrategy Body → String
  scheme_of ws = if ws.use_tls then "https" else "http"

  -- The client's TLS configuration.
  unfoldable pub tls_of : HttpStrategy Body → Option TlsConfig
  tls_of ws =
      if ws.use_tls
      then if ws.allow_insecure
        then some (record { insecure_skip_verify = true })
        else ws.tls_config
      else ws.tls_config

-- The lowest tcp port with a binding, and its first host port.
module _ (P : PortApi) where
  unfoldable pub lowest_tcp : List PortEntry → String × String → String × String
  lowest_tcp [] best = best
  lowest_tcp (e ∷ es) best = lowest_tcp es (better e.bindings e.port best)
    where
      better : List String → String → String × String → String × String
      better [] port best = best
      better (host_port ∷ more) port best =
          if not (P.proto port =s "tcp")
          then best
          else if lower P port best.0
          then (port, host_port)
          else best
