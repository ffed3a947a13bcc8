-- ===== src/Wait/Health.antt =====
-- wait/health.go: the container's health check is waited for.
use testcontainers_go.Base.{
  ℕ, String, ◌=s◌, Bool, false, Option, none, some, if◌then◌else◌, M, ◌>>=◌,
}
use testcontainers_go.Errors.{Error, Result, ok, err}
use testcontainers_go.Clock.{Ctx, Clock, ctx_err, with_timeout}
use testcontainers_go.Wait.Target.{
  Target, ContainerState, check_state, default_poll_interval, timeout_or_default,
}
use testcontainers_go.Wait.Poll.{Step, again, stop, on_tick, poll}

pub record HealthStrategy : Type 0 where
  pub timeout : Option ℕ
  pub poll_interval : ℕ

unfoldable pub new_health_strategy : HealthStrategy
new_health_strategy = record { timeout = none; poll_interval = default_poll_interval }

unfoldable pub with_startup_timeout : HealthStrategy → ℕ → HealthStrategy
with_startup_timeout ws d = record ws { timeout = some d }

unfoldable pub with_poll_interval : HealthStrategy → ℕ → HealthStrategy
with_poll_interval ws d = record ws { poll_interval = d }

-- `state.Health != nil && state.Health.Status == types.Healthy`
unfoldable pub is_healthy : Option String → Bool
is_healthy none = false
is_healthy (some status) = status =s "healthy"

module _ {W Body : Type 0} (C : Clock W) (T : Target W Body) where
  unfoldable pub health_checked : HealthStrategy → ContainerState → Option Error → M W Step
  unfolding is_healthy
  health_checked ws s (some e) w = (stop (some e), w)
  health_checked ws s none w =
      if is_healthy s.health then (stop none, w) else (again, C.sleep ws.poll_interval w)

  unfoldable pub health_step : HealthStrategy → Result ContainerState → M W Step
  unfolding health_checked check_state
  health_step ws (err e) w = (stop (some e), w)
  health_step ws (ok s) w = health_checked ws s (check_state s) w

  unfoldable pub health_round : HealthStrategy → Ctx → M W Step
  unfolding health_step on_tick
  health_round ws ctx w = on_tick (ctx_err C ctx w) (do r ← T.state ctx; health_step ws r) w

  unfoldable pub health_wait : ℕ → HealthStrategy → Ctx → M W (Option (Option Error))
  unfolding health_round poll with_timeout timeout_or_default
  health_wait n ws ctx w =
      poll n (health_round ws (with_timeout C ctx (timeout_or_default ws.timeout) w)) w
