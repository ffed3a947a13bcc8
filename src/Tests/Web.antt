-- ===== src/Tests/Web.antt =====
-- wait/http.go: the theorem on the HTTP strategy, with a server that is up from time 5 on.
use testcontainers_go.Base.{
  ℕ, ◌+◌, String, true, false, none, some, [], ◌∷◌, M, leb, ◌==◌, if◌then◌else◌,
}
use testcontainers_go.Errors.{Result, ok, err, new}
use testcontainers_go.Clock.{Ctx, Clock, deadline_err}
use testcontainers_go.Wait.Target.{Target, PortApi}
use testcontainers_go.Wait.Http.{HttpStrategy, HttpRequest, HttpResponse, Url}

abbrev ticking : Clock ℕ
ticking = record {
  now = λ w. w;
  canceled = λ w. false;
  sleep = λ d w. w + d;
  select_after = λ ctx d w. (deadline_err ctx.deadline (w + d), w + d);
  select_tick = λ ctx d w. (deadline_err ctx.deadline (w + d), w + d);
}

abbrev server : Target ℕ String
server = record {
  host = λ ctx w. (ok "localhost", w);
  inspect = λ ctx w. (ok [], w);
  mapped_port = λ ctx p w. (("32768/tcp", none), w);
  logs = λ ctx w. (ok "", w);
  exec = λ ctx cmd w. (ok (0, ""), w);
  state = λ ctx w. (
    ok (record {
      running = true;
      oom_killed = false;
      status = "running";
      exit_code = 0;
      health = none;
    }),
    w,
  );
  copy_file_from_container = λ ctx f w. (err (new "no file"), w);
}

abbrev nat : PortApi
nat = record {
  proto = λ p. "tcp";
  int = λ p. 32768;
  number = λ p. "32768";
  new_port = λ proto n. (n, none);
}

abbrev answer : ℕ → HttpResponse String
answer w = record {
  status = if leb 5 w then 200 else 503;
  body = "up";
  headers = [];
  close_err = none;
}

abbrev asks : Ctx → HttpRequest → M ℕ (Result (HttpResponse String))
asks ctx req w = (ok (answer w), w + 1)

abbrev parses : String → Result Url
parses path = ok (record { scheme = ""; user = none; host = ""; path = path })

abbrev home_page : HttpStrategy String
home_page = record {
  timeout = some 20;
  port = "80/tcp";
  path = "/";
  status_code_matcher = some (λ c. c == 200);
  response_matcher = none;
  use_tls = false;
  allow_insecure = false;
  tls_config = none;
  method = "GET";
  body = none;
  headers = ("Accept", "text/html") ∷ [];
  response_headers_matcher = none;
  poll_interval = 2;
  user_info = none;
  force_ipv4_local_host = true;
}
