-- ===== src/Wait/Readiness.antt =====
-- What it means that a strategy reports a container as ready.
pub mod Endings
use testcontainers_go.Base.{ℕ, ◌≡◌, refl, ap, true, Option, none, some, arith, String, M, =s_iff}
use testcontainers_go.Errors.{Error, Result, ok, err}
use testcontainers_go.Clock.{Ctx, Clock, ctx_err, with_timeout}
use testcontainers_go.Wait.Target.{Target, ContainerState, timeout_or_default, accepts, check_state}
use testcontainers_go.Wait.Poll.{Step, stop, poll_sound, Returns, last, round, tick_stop}
use testcontainers_go.Wait.Exec.{ExecStrategy, exec_round, exec_wait, exec_decision}
use testcontainers_go.Wait.Health.{
  HealthStrategy, health_round, health_wait, health_step, is_healthy,
}

-- The last round of a loop that returned.
pub last_round :
    {W : Type 0} (body : M W Step) {w w' : W} {r : Option Error}
    → Returns body w r w'
    → (v : W) × (body v ≡ (stop r, w'))
last_round body (last w e) = (w, e)
last_round body (round w e rest) = last_round body rest

-- A running container is the only one without an error.
pub alive_running : (s : ContainerState) → check_state s ≡ none → s.running ≡ true
unfolding check_state
alive_running s h = ground arith

healthy_text : (status : Option String) → is_healthy status ≡ true → status ≡ some "healthy"
unfolding is_healthy
healthy_text none h = cc
healthy_text (some t) h = ap some ((=s_iff t "healthy").0 h)

module _ {W Body : Type 0} (C : Clock W) (T : Target W Body) where
  exec_accepted :
      (ws : ExecStrategy Body) (r : Result (ℕ × Body))
      → exec_decision ws r ≡ stop none
      → (code : ℕ) × (resp : Body) × (r ≡ ok (code, resp))
        × (ws.exit_code_matcher code ≡ true)
        × (accepts ws.response_matcher resp ≡ true)
  unfolding exec_decision
  exec_accepted ws (err e) h = cc
  exec_accepted ws (ok (code, resp)) h = (code, resp, refl, ground arith, ground arith)

  -- The command strategy reports readiness only from a run of its command, under the limited
  -- context, whose exit code and output both matched; the world is then the one after that run.
  pub exec_wait_ready :
      (n : ℕ) (ws : ExecStrategy Body) (ctx : Ctx) (w w' : W)
      → exec_wait C T n ws ctx w ≡ (some none, w')
      → (v : W) × (code : ℕ) × (resp : Body) × (T.exec
            (with_timeout C ctx (timeout_or_default ws.timeout) w)
            ws.cmd
            v
          ≡ (ok (code, resp), w'))
        × (ws.exit_code_matcher code ≡ true)
        × (accepts ws.response_matcher resp ≡ true)
  unfolding exec_wait exec_round
  exec_wait_ready n ws ctx w w' h =
      let inner = with_timeout C ctx (timeout_or_default ws.timeout) w in
      let (u, e) = last_round _ (poll_sound (exec_round C T ws inner) n w w' none h) in
      let v = (C.select_after inner ws.poll_interval u).1 in
      let ran = (tick_stop _ (C.select_after inner ws.poll_interval u).0 e).1 in
      let (code, resp, got, m1, m2) =
        exec_accepted ws (T.exec inner ws.cmd v).0 (ap (λ s. s.0) ran) in
      (v, code, resp, (λ i. (got i, (ran i).1)), m1, m2)

  health_accepted :
      (ws : HealthStrategy) (r : Result ContainerState) (v w' : W)
      → health_step C T ws r v ≡ (stop none, w')
      → (s : ContainerState) × (r ≡ ok s)
        × (check_state s ≡ none)
        × (is_healthy s.health ≡ true)
        × (v ≡ w')
  unfolding health_step
  health_accepted ws (err e) v w' h = cc
  health_accepted ws (ok s) v w' h = (s, refl, ground arith, ground arith, ground arith)

  -- The health strategy reports readiness only of a state that it read as running and healthy; the
  -- world is the one just after that reading.
  pub health_wait_ready :
      (n : ℕ) (ws : HealthStrategy) (ctx : Ctx) (w w' : W)
      → health_wait C T n ws ctx w ≡ (some none, w')
      → (v : W) × (s : ContainerState) × (T.state
            (with_timeout C ctx (timeout_or_default ws.timeout) w)
            v
          ≡ (ok s, w'))
        × (s.running ≡ true)
        × (s.health ≡ some "healthy")
  unfolding health_wait health_round
  health_wait_ready n ws ctx w w' h =
      let inner = with_timeout C ctx (timeout_or_default ws.timeout) w in
      let (v, e) = last_round _ (poll_sound (health_round C T ws inner) n w w' none h) in
      let ran = (tick_stop _ (ctx_err C inner v) e).1 in
      let r = T.state inner v in
      let (s, got, alive, well, same) = health_accepted ws r.0 r.1 w' ran in
      (v, s, (λ i. (got i, same i)), alive_running s alive, healthy_text s.health well)
