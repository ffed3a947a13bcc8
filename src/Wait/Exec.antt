-- ===== src/Wait/Exec.antt =====
-- wait/exec.go: a command is run in the container until its exit code and its output match.
use testcontainers_go.Base.{
  ℕ, String, Bool, true, not, Option, none, some, List, if◌then◌else◌, ◌==◌, M, ◌>>=◌, pure,
}
use testcontainers_go.Errors.{Error, Result, ok, err}
use testcontainers_go.Clock.{Ctx, Clock, with_timeout}
use testcontainers_go.Wait.Target.{Target, accepts, default_poll_interval, timeout_or_default}
use testcontainers_go.Wait.Poll.{Step, again, stop, on_tick, poll}

pub record ExecStrategy (Body : Type 0) : Type 0 where
  pub timeout : Option ℕ
  pub cmd : List String
  pub exit_code_matcher : ℕ → Bool
  pub response_matcher : Option (Body → Bool)
  pub poll_interval : ℕ

unfoldable pub default_exit_code_matcher : ℕ → Bool
default_exit_code_matcher code = code == 0

module _ {Body : Type 0} where
  unfoldable pub new_exec_strategy : List String → ExecStrategy Body
  unfolding default_exit_code_matcher
  new_exec_strategy cmd = record {
    timeout = none;
    cmd = cmd;
    exit_code_matcher = default_exit_code_matcher;
    response_matcher = some (λ body. true);
    poll_interval = default_poll_interval;
  }

  unfoldable pub with_startup_timeout : ExecStrategy Body → ℕ → ExecStrategy Body
  with_startup_timeout ws d = record ws { timeout = some d }

  unfoldable pub with_exit_code_matcher : ExecStrategy Body → (ℕ → Bool) → ExecStrategy Body
  with_exit_code_matcher ws f = record ws { exit_code_matcher = f }

  unfoldable pub with_exit_code : ExecStrategy Body → ℕ → ExecStrategy Body
  unfolding with_exit_code_matcher
  with_exit_code ws code = with_exit_code_matcher ws (λ actual. actual == code)

  unfoldable pub with_response_matcher : ExecStrategy Body → (Body → Bool) → ExecStrategy Body
  with_response_matcher ws f = record ws { response_matcher = some f }

  unfoldable pub with_poll_interval : ExecStrategy Body → ℕ → ExecStrategy Body
  with_poll_interval ws d = record ws { poll_interval = d }

  -- What a run of the command leads to.
  unfoldable pub exec_decision : ExecStrategy Body → Result (ℕ × Body) → Step
  exec_decision ws (err e) = stop (some e)
  exec_decision ws (ok (code, resp)) =
      if not (ws.exit_code_matcher code)
      then again
      else if not (accepts ws.response_matcher resp)
      then again
      else stop none

module _ {W Body : Type 0} (C : Clock W) (T : Target W Body) where
  -- One round of the loop of `WaitUntilReady`.
  unfoldable pub exec_round : ExecStrategy Body → Ctx → M W Step
  unfolding exec_decision on_tick
  exec_round ws ctx = do
    e ← C.select_after ctx ws.poll_interval
    on_tick e (do r ← T.exec ctx ws.cmd; pure (exec_decision ws r))

  unfoldable pub exec_wait : ℕ → ExecStrategy Body → Ctx → M W (Option (Option Error))
  unfolding exec_round poll with_timeout timeout_or_default
  exec_wait n ws ctx w =
      poll n (exec_round ws (with_timeout C ctx (timeout_or_default ws.timeout) w)) w
