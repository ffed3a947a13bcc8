-- ===== src/Wait/Http/Requests.antt =====
-- wait/http.go: WaitUntilReady, which repeats an HTTP request to the container until its response
-- matches.
use testcontainers_go.Base.{
  ℕ, String, ◌=s◌, decimal, replace_first, Option, none, some, List, if◌then◌else◌, M, ◌>>=◌, pure,
}
use testcontainers_go.Errors.{Error, new, Result, ok, err}
use testcontainers_go.Clock.{Ctx, Clock, with_timeout}
use testcontainers_go.Wait.Target.{Target, PortApi, PortEntry, check_target, timeout_or_default}
use testcontainers_go.Wait.Poll.{Step, on_tick, poll}
use testcontainers_go.Wait.Port.{map_port}
use testcontainers_go.Wait.HostPort.{join_host_port}
use testcontainers_go.Wait.Http.{
  HttpStrategy, Url, HttpRequest, HttpResponse, http_decision, scheme_of, tls_of, lowest_tcp,
  user_or, method_of,
}

-- `send` is the client's `Do`; `read_all`, `parse_url` and `request_err` are `io.ReadAll`,
-- `url.Parse` and the error of `http.NewRequestWithContext`.
module _ {W Body : Type 0} (C : Clock W) (T : Target W Body) (P : PortApi)
    (send : Ctx → HttpRequest → M W (Result (HttpResponse Body))) (read_all : Body → Result String)
    (parse_url : String → Result Url) (request_err : HttpRequest → Option Error) where
  unfoldable pub http_round : HttpStrategy Body → Ctx → HttpRequest → M W Step
  unfolding http_decision check_target on_tick
  http_round ws ctx req = do
    e ← C.select_after ctx ws.poll_interval
    on_tick e (do
      alive ← check_target T ctx
      on_tick alive (on_tick (request_err req) (do r ← send ctx req; pure (http_decision ws r))))

  unfoldable pub content_of : Option Body → Result String
  content_of none = ok ""
  content_of (some b) = read_all b

  unfoldable pub body_read :
      ℕ → HttpStrategy Body → Ctx → String → Url → Result String → M W (Option (Option Error))
  unfolding http_round poll tls_of
  body_read n ws ctx method url (err e) w = (some (some e), w)
  body_read n ws ctx method url (ok content) w =
      poll n
        (http_round ws ctx (record {
          method = method;
          url = url;
          content = content;
          headers = ws.headers;
          tls = tls_of ws;
        }))
        w

  unfoldable pub url_parsed :
      ℕ → HttpStrategy Body → Ctx → String → String → Result Url → M W (Option (Option Error))
  unfolding body_read content_of scheme_of user_or
  url_parsed n ws ctx method address (err e) w = (some (some e), w)
  url_parsed n ws ctx method address (ok url) w =
      body_read n ws ctx method
        (record url { scheme = scheme_of ws; host = address; user = user_or ws.user_info url.user })
        (content_of ws.body) w

  unfoldable pub method_known :
      ℕ → HttpStrategy Body → Ctx → String → Result String → M W (Option (Option Error))
  unfolding url_parsed
  method_known n ws ctx address (err e) w = (some (some e), w)
  method_known n ws ctx address (ok method) w =
      url_parsed n ws ctx method address (parse_url ws.path) w

  -- From the mapped port on.
  unfoldable pub mapped :
      ℕ → HttpStrategy Body → Ctx → String → String → M W (Option (Option Error))
  unfolding method_known method_of join_host_port
  mapped n ws ctx ip port =
      method_known n ws ctx (join_host_port ip (decimal (P.int port))) (method_of ws.method)

  unfoldable pub lowest_known :
      ℕ → HttpStrategy Body → Ctx → String → String × String → M W (Option (Option Error))
  unfolding mapped
  lowest_known n ws ctx ip best w =
      if best.0 =s ""
      then (some (some (new "No exposed tcp ports or mapped ports - cannot wait for status")), w)
      else mapped n ws ctx ip (P.new_port (P.proto best.0) best.1).0 w

  unfoldable pub ports_known :
      ℕ → HttpStrategy Body → Ctx → String → Result (List PortEntry) → M W (Option (Option Error))
  unfolding lowest_known lowest_tcp
  ports_known n ws ctx ip (err e) w = (some (some e), w)
  ports_known n ws ctx ip (ok ports) w = lowest_known n ws ctx ip (lowest_tcp P ports ("", "")) w

  abbrev pub failed_or : Option Error → M W (Option (Option Error)) → M W (Option (Option Error))
  failed_or (some e) k w = (some (some e), w)
  failed_or none k w = k w

  -- `ws.Port == ""`: one interval is waited before the ports are read.
  unfoldable pub lowest_wait : ℕ → HttpStrategy Body → Ctx → String → M W (Option (Option Error))
  unfolding ports_known check_target
  lowest_wait n ws ctx ip = do
    e ← C.select_after ctx ws.poll_interval
    failed_or e (do
      alive ← check_target T ctx
      failed_or alive (do r ← T.inspect ctx; ports_known n ws ctx ip r))

  unfoldable pub tcp_mapped :
      ℕ → HttpStrategy Body → Ctx → String → String → M W (Option (Option Error))
  unfolding mapped
  tcp_mapped n ws ctx ip port w =
      if P.proto port =s "tcp"
      then mapped n ws ctx ip port w
      else (some (some (new "Cannot use HTTP client on non-TCP ports")), w)

  unfoldable pub http_host_known :
      ℕ → HttpStrategy Body → Ctx → Result String → M W (Option (Option Error))
  unfolding lowest_wait tcp_mapped map_port replace_first
  http_host_known n ws ctx (err e) w = (some (some e), w)
  http_host_known n ws ctx (ok host) w =
      let ip =
        if ws.force_ipv4_local_host then replace_first host "localhost" "127.0.0.1" else host in
      if ws.port =s ""
      then lowest_wait n ws ctx ip w
      else map_port T ctx ws.port n (C.select_after ctx ws.poll_interval) (tcp_mapped n ws ctx ip) w

  unfoldable pub http_wait : ℕ → HttpStrategy Body → Ctx → M W (Option (Option Error))
  unfolding http_host_known with_timeout timeout_or_default
  http_wait n ws ctx w =
      let inner = with_timeout C ctx (timeout_or_default ws.timeout) w in
      (do r ← T.host inner; http_host_known n ws inner r) w
