-- ===== src/Wait/Exit.antt =====
-- wait/exit.go: the container is waited for until it is no longer running.
use testcontainers_go.Base.{ℕ, contains, Option, none, some, if◌then◌else◌, M, ◌>>=◌}
use testcontainers_go.Errors.{Error, message, Result, ok, err}
use testcontainers_go.Clock.{Ctx, Clock, ctx_err, with_timeout}
use testcontainers_go.Wait.Target.{Target, ContainerState, default_poll_interval}
use testcontainers_go.Wait.Poll.{Step, again, stop, on_tick, poll}

pub record ExitStrategy : Type 0 where
  pub timeout : Option ℕ
  pub poll_interval : ℕ

unfoldable pub new_exit_strategy : ExitStrategy
new_exit_strategy = record { timeout = none; poll_interval = default_poll_interval }

unfoldable pub with_exit_timeout : ExitStrategy → ℕ → ExitStrategy
with_exit_timeout ws d = record ws { timeout = some d }

unfoldable pub with_poll_interval : ExitStrategy → ℕ → ExitStrategy
with_poll_interval ws d = record ws { poll_interval = d }

-- `if ws.timeout != nil { ctx, cancel = context.WithTimeout(ctx, *ws.timeout) }`
unfoldable pub limited : {W : Type 0} → Clock W → Option ℕ → Ctx → W → Ctx
unfolding with_timeout
limited C none ctx w = ctx
limited C (some d) ctx w = with_timeout C ctx d w

module _ {W Body : Type 0} (C : Clock W) (T : Target W Body) where
  -- What the container's state leads to; a container that runs is slept on.
  unfoldable pub exit_step : ExitStrategy → Result ContainerState → M W Step
  exit_step ws (err e) w =
      (if contains (message e) "No such container" then stop none else stop (some e), w)
  exit_step ws (ok s) w = if s.running then (again, C.sleep ws.poll_interval w) else (stop none, w)

  unfoldable pub exit_round : ExitStrategy → Ctx → M W Step
  unfolding exit_step on_tick
  exit_round ws ctx w = on_tick (ctx_err C ctx w) (do r ← T.state ctx; exit_step ws r) w

  unfoldable pub exit_wait : ℕ → ExitStrategy → Ctx → M W (Option (Option Error))
  unfolding exit_round poll limited
  exit_wait n ws ctx w = poll n (exit_round ws (limited C ws.timeout ctx w)) w
