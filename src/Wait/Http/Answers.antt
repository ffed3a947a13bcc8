-- ===== src/Wait/Http/Answers.antt =====
-- What it means that the HTTP strategy reports a container as ready.
use testcontainers_go.Base.{◌≡◌, true, none, M}
use testcontainers_go.Errors.{Result, ok}
use testcontainers_go.Clock.{Ctx, Clock}
use testcontainers_go.Wait.Target.{Target, accepts}
use testcontainers_go.Wait.Http.{HttpStrategy, HttpRequest, HttpResponse, scheme_of, tls_of}

module _ {Body : Type 0} (ws : HttpStrategy Body) where
  -- The response that a strategy accepts.
  pub record IsAccepted (resp : HttpResponse Body) : Type 0 where
    pub status : accepts ws.status_code_matcher resp.status ≡ true
    pub body : accepts ws.response_matcher resp.body ≡ true
    pub headers : accepts ws.response_headers_matcher resp.headers ≡ true
    pub closed : resp.close_err ≡ none

module _ {W Body : Type 0} (send : Ctx → HttpRequest → M W (Result (HttpResponse Body)))
    (ws : HttpStrategy Body) where
  -- The world is the one after a request, made as the strategy says, whose response is accepted.
  abbrev pub Answered : W → Type 0
  Answered w' =
      (ctx : Ctx) × (req : HttpRequest) × (v : W) × (resp : HttpResponse Body) × (send ctx req v
        ≡ (ok resp, w'))
      × (req.url.scheme ≡ scheme_of ws)
      × (req.headers ≡ ws.headers)
      × (req.tls ≡ tls_of ws)
      × IsAccepted ws resp
