-- ===== src/Wait/Termination.antt =====
-- The polling strategies come to an end: a bound on their rounds from the timeout and the interval.
use testcontainers_go.Base.{
  ℕ, suc, ◌+◌, ◌*◌, ◌≤◌, ◌<◌, ◌≡◌, ◌≢◌, none, some, arith, String, List, ap,
}
use testcontainers_go.Errors.{Result, ok, err}
use testcontainers_go.Clock.{Ctx, Clock, IsClock, ctx_err}
use testcontainers_go.Clock.Laws.{lt_of_ctx_err, with_timeout-EndsBy}
use testcontainers_go.Wait.Target.{Target, ContainerState, timeout_or_default}
use testcontainers_go.Wait.Poll.{again, poll_within, tick_again}
use testcontainers_go.Wait.Health.{HealthStrategy, health_round, health_wait, health_step}
use testcontainers_go.Wait.Exit.{ExitStrategy, exit_round, exit_wait, exit_step}

-- A call on the container does not turn the clock back.
pub record IsSteady {W Body : Type 0} (C : Clock W) (T : Target W Body) : Type 0 where
  pub exec_later : (ctx : Ctx) (cmd : List String) (w : W) → C.now w ≤ C.now (T.exec ctx cmd w).1
  pub state_later : (ctx : Ctx) (w : W) → C.now w ≤ C.now (T.state ctx w).1

module _ {W Body : Type 0} (C : Clock W) (T : Target W Body) (L : IsClock C)
    (S : IsSteady C T) where
  health_again :
      (ws : HealthStrategy) (r : Result ContainerState) (u v : W)
      → health_step C T ws r u ≡ (again, v)
      → C.sleep ws.poll_interval u ≡ v
  unfolding health_step
  health_again ws (err e) u v h = cc
  health_again ws (ok s) u v h = ground arith

  health_turn :
      (ws : HealthStrategy) (ctx : Ctx) (d : ℕ) (u v : W)
      → ctx.deadline ≡ some d
      → health_round C T ws ctx u ≡ (again, v)
      → (C.now u < d) × (C.now u + ws.poll_interval ≤ C.now v)
  unfolding health_round
  health_turn ws ctx d u v e h =
      let (not_done, went) = tick_again _ (ctx_err C ctx u) h in
      let t = (T.state ctx u).1 in
      let later : C.now (C.sleep ws.poll_interval t) ≡ C.now v =
        ap C.now (health_again ws (T.state ctx u).0 t v went) in
      (
        lt_of_ctx_err C ctx d u e not_done,
        omega (arith, L.sleep_grows ws.poll_interval t, S.state_later ctx u, later),
      )

  -- Under a clock and a container that do not go back in time, a health check returns within n + 1
  -- rounds if its timeout, or the default where there is none, is at most n intervals.
  pub health_wait-within :
      (n : ℕ) (ws : HealthStrategy) (ctx : Ctx) (w : W)
      → timeout_or_default ws.timeout ≤ n * ws.poll_interval
      → (health_wait C T (suc n) ws ctx w).0 ≢ none
  unfolding health_wait
  health_wait-within n ws ctx w h =
      let (d, e, le) = with_timeout-EndsBy C ctx (timeout_or_default ws.timeout) w in
      poll_within _ C.now d ws.poll_interval n w (λ u v r. health_turn ws _ d u v e r) (omega arith)

  exit_again :
      (ws : ExitStrategy) (r : Result ContainerState) (u v : W)
      → exit_step C T ws r u ≡ (again, v)
      → C.sleep ws.poll_interval u ≡ v
  unfolding exit_step
  exit_again ws (err e) u v h = ground arith
  exit_again ws (ok s) u v h = ground arith

  exit_turn :
      (ws : ExitStrategy) (ctx : Ctx) (d : ℕ) (u v : W)
      → ctx.deadline ≡ some d
      → exit_round C T ws ctx u ≡ (again, v)
      → (C.now u < d) × (C.now u + ws.poll_interval ≤ C.now v)
  unfolding exit_round
  exit_turn ws ctx d u v e h =
      let (not_done, went) = tick_again _ (ctx_err C ctx u) h in
      let t = (T.state ctx u).1 in
      let later : C.now (C.sleep ws.poll_interval t) ≡ C.now v =
        ap C.now (exit_again ws (T.state ctx u).0 t v went) in
      (
        lt_of_ctx_err C ctx d u e not_done,
        omega (arith, L.sleep_grows ws.poll_interval t, S.state_later ctx u, later),
      )

  -- Under a clock and a container that do not go back in time, a wait for an exit with a timeout
  -- of at most n intervals returns within n + 1 rounds.
  pub exit_wait-within :
      (n d : ℕ) (ws : ExitStrategy) (ctx : Ctx) (w : W)
      → ws.timeout ≡ some d
      → d ≤ n * ws.poll_interval
      → (exit_wait C T (suc n) ws ctx w).0 ≢ none
  unfolding exit_wait
  exit_wait-within n d ws ctx w e h =
      let (d', e', le) = with_timeout-EndsBy C ctx d w in
      rw e (
        poll_within _ C.now d' ws.poll_interval n w (λ u v r. exit_turn ws _ d' u v e' r)
          (omega arith))
