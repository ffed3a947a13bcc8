-- ===== src/Wait/Nop.antt =====
-- wait/nop.go: a strategy that calls a function, and a target that answers from its fields.
use testcontainers_go.Base.{ℕ, Option, none, some, M}
use testcontainers_go.Errors.{Error}
use testcontainers_go.Clock.{Ctx}
use testcontainers_go.Wait.Target.{ContainerState}

pub record NopStrategy (W : Type 0) : Type 0 where
  pub timeout : Option ℕ
  pub wait_until_ready : Ctx → M W (Option Error)

module _ {W : Type 0} where
  unfoldable pub for_nop : (Ctx → M W (Option Error)) → NopStrategy W
  for_nop f = record { timeout = none; wait_until_ready = f }

  unfoldable pub with_startup_timeout : NopStrategy W → ℕ → NopStrategy W
  with_startup_timeout ws d = record ws { timeout = some d }

  unfoldable pub nop_wait : NopStrategy W → Ctx → M W (Option (Option Error))
  nop_wait ws ctx w = let (r, w') = ws.wait_until_ready ctx w in (some r, w')

pub record NopStrategyTarget (Body : Type 0) : Type 0 where
  pub reader_closer : Body
  pub container_state : ContainerState
