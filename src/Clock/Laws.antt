-- ===== src/Clock/Laws.antt =====
-- Facts about deadlines.
use testcontainers_go.Base.{ℕ, ◌+◌, ◌≤◌, ◌<◌, ◌≡◌, none, some, arith}
use testcontainers_go.Clock.{Ctx, Clock, ctx_err, with_timeout, earlier}

module _ {W : Type 0} (C : Clock W) where
  -- A context that is not done has not met its deadline.
  pub lt_of_ctx_err :
      (ctx : Ctx) (d : ℕ) (w : W) → ctx.deadline ≡ some d → ctx_err C ctx w ≡ none → C.now w < d
  unfolding ctx_err
  lt_of_ctx_err ctx d w e h = ground arith

  -- Whether the context's deadline is at or before the time.
  abbrev pub EndsBy : Ctx → ℕ → Type 0
  EndsBy ctx t = (d : ℕ) × (ctx.deadline ≡ some d) × (d ≤ t)

  pub with_timeout-EndsBy :
      (ctx : Ctx) (d : ℕ) (w : W) → EndsBy (with_timeout C ctx d w) (C.now w + d)
  unfolding with_timeout
  with_timeout-EndsBy ctx d w = (earlier ctx.deadline (C.now w + d), ground arith, ground arith)

  pub with_timeout-keeps :
      (ctx : Ctx) (d t : ℕ) (w : W) → EndsBy ctx t → EndsBy (with_timeout C ctx d w) t
  unfolding with_timeout
  with_timeout-keeps ctx d t w h =
      (earlier ctx.deadline (C.now w + d), ground arith, ground (arith, h))
