-- ===== src/Wait/All.antt =====
-- wait/all.go: several strategies, one after the other.
pub mod Laws
use testcontainers_go.Base.{ℕ, String, Option, none, some, List, [], ◌∷◌, M}
use testcontainers_go.Errors.{Error, new}
use testcontainers_go.Clock.{Ctx, Clock, with_timeout}

-- A strategy to wait for. `own_timeout` is `none` where it does not implement `StrategyTimeout`,
-- and what `Timeout()` returns where it does.
pub record Strategy (W : Type 0) : Type 0 where
  pub own_timeout : Option (Option ℕ)
  pub wait : Ctx → M W (Option (Option Error))

pub record MultiStrategy (W : Type 0) : Type 0 where
  pub timeout : Option ℕ
  pub deadline : Option ℕ
  pub strategies : List (Strategy W)

module _ {W : Type 0} where
  unfoldable pub for_all : List (Strategy W) → MultiStrategy W
  for_all ss = record { timeout = none; deadline = none; strategies = ss }

  unfoldable pub with_startup_timeout_default : MultiStrategy W → ℕ → MultiStrategy W
  with_startup_timeout_default ms d = record ms { timeout = some d }

  unfoldable pub with_deadline : MultiStrategy W → ℕ → MultiStrategy W
  with_deadline ms d = record ms { deadline = some d }

  unfoldable pub with_startup_timeout : MultiStrategy W → ℕ → MultiStrategy W
  unfolding with_deadline
  with_startup_timeout ms d = with_deadline ms d

module _ {W : Type 0} (C : Clock W) where
  -- The context of one strategy: the default timeout is set where the strategy has the method and
  -- no timeout of its own.
  unfoldable pub strategy_ctx : Option ℕ → Option (Option ℕ) → Ctx → W → Ctx
  unfolding with_timeout
  strategy_ctx (some d) (some none) ctx w = with_timeout C ctx d w
  strategy_ctx _ _ ctx w = ctx

  unfoldable pub next_strategy :
      Option (Option Error) × W → M W (Option (Option Error)) → Option (Option Error) × W
  next_strategy (none, w) rest = (none, w)
  next_strategy (some (some e), w) rest = (some (some e), w)
  next_strategy (some none, w) rest = rest w

  unfoldable pub run_all : Option ℕ → List (Strategy W) → Ctx → M W (Option (Option Error))
  unfolding strategy_ctx next_strategy
  run_all timeout [] ctx w = (some none, w)
  run_all timeout (s ∷ ss) ctx w =
      next_strategy (s.wait (strategy_ctx timeout s.own_timeout ctx w) w) (run_all timeout ss ctx)

  unfoldable pub deadline_ctx : Option ℕ → Ctx → W → Ctx
  unfolding with_timeout
  deadline_ctx none ctx w = ctx
  deadline_ctx (some d) ctx w = with_timeout C ctx d w

  unfoldable pub run_some : MultiStrategy W → List (Strategy W) → Ctx → M W (Option (Option Error))
  unfolding run_all
  run_some ms [] ctx w = (some (some (new "no wait strategy supplied")), w)
  run_some ms (s ∷ ss) ctx w = run_all ms.timeout (s ∷ ss) ctx w

  unfoldable pub multi_wait : MultiStrategy W → Ctx → M W (Option (Option Error))
  unfolding run_some deadline_ctx
  multi_wait ms ctx w = run_some ms ms.strategies (deadline_ctx ms.deadline ctx w) w
