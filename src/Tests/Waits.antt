-- ===== src/Tests/Waits.antt =====
-- wait/: the theorems on the strategies, with a clock and a container that a test can run.
use testcontainers_go.Base.{
  ℕ, ◌+◌, ◌≡◌, refl, String, true, false, none, some, [], ◌∷◌, leb, ◌==◌, if◌then◌else◌, map,
}
use testcontainers_go.Errors.{ok, err, new}
use testcontainers_go.Clock.{Clock, background, deadline_err, with_timeout}
use testcontainers_go.Wait.Target.{Target, ContainerState, timeout_or_default, accepts}
use testcontainers_go.Wait.Exec.{ExecStrategy, exec_wait}
use testcontainers_go.Wait.Health.{HealthStrategy, health_wait}
use testcontainers_go.Wait.All.{MultiStrategy, multi_wait}
use testcontainers_go.Wait.All.Laws.{multi_wait-clipped, clipped}
use testcontainers_go.Wait.Readiness.{exec_wait_ready}

-- The world is the time.
abbrev ticking : Clock ℕ
ticking = record {
  now = λ w. w;
  canceled = λ w. false;
  sleep = λ d w. w + d;
  select_after = λ ctx d w. (deadline_err ctx.deadline (w + d), w + d);
  select_tick = λ ctx d w. (deadline_err ctx.deadline (w + d), w + d);
}

abbrev state_at : ℕ → ContainerState
state_at w = record {
  running = true;
  oom_killed = false;
  status = "running";
  exit_code = 0;
  health = some (if leb 5 w then "healthy" else "starting");
}

-- A container that is up from time 5 on.
abbrev slow : Target ℕ String
slow = record {
  host = λ ctx w. (ok "localhost", w);
  inspect = λ ctx w. (ok [], w);
  mapped_port = λ ctx p w. (("", some (new "port not found")), w);
  logs = λ ctx w. (ok "", w);
  exec = λ ctx cmd w. (ok (if leb 5 w then 0 else 1, "out"), w + 1);
  state = λ ctx w. (ok (state_at w), w);
  copy_file_from_container = λ ctx f w. (err (new "no file"), w);
}

abbrev ping : ExecStrategy String
ping = record {
  timeout = some 20;
  cmd = "ping" ∷ [];
  exit_code_matcher = λ c. c == 0;
  response_matcher = none;
  poll_interval = 2;
}

abbrev pulse : HealthStrategy
pulse = record { timeout = some 20; poll_interval = 3 }

exec_wait_ready_example :
    (v : ℕ) × (code : ℕ) × (resp : String) × (slow.exec
        (with_timeout ticking background (timeout_or_default ping.timeout) 0)
        ping.cmd
        v
      ≡ (ok (code, resp), 6))
    × (ping.exit_code_matcher code ≡ true)
    × (accepts ping.response_matcher resp ≡ true)
unfolding exec_wait deadline_err
exec_wait_ready_example = exec_wait_ready ticking slow 11 ping background 0 6 refl

-- Two strategies of a group, one with a timeout of its own to set.
abbrev group : MultiStrategy ℕ
group = record {
  timeout = some 30;
  deadline = some 40;
  strategies =
      record { own_timeout = some (some 20); wait = λ ctx. exec_wait ticking slow 11 ping ctx }
      ∷ record { own_timeout = none; wait = λ ctx. health_wait ticking slow 8 pulse ctx }
      ∷ [];
}

multi_wait-clipped_example :
    multi_wait ticking
      (record group { strategies = map (clipped 40) group.strategies })
      background
      0
    ≡ multi_wait ticking group background 0
multi_wait-clipped_example = multi_wait-clipped ticking group background 0 40 refl
