-- ===== src/Wait/Readiness/Endings.antt =====
-- What it means that the wait for an exit, or for a file, reports success.
use testcontainers_go.Base.{ℕ, ◌≡◌, refl, ap, Bool, true, Option, none, some, arith, not, contains}
use testcontainers_go.Errors.{Error, Result, ok, err, message}
use testcontainers_go.Clock.{Ctx, Clock, ctx_err, with_timeout}
use testcontainers_go.Wait.Target.{Target, ContainerState, timeout_or_default}
use testcontainers_go.Wait.Poll.{stop, poll_sound, tick_stop}
use testcontainers_go.Wait.Readiness.{last_round}
use testcontainers_go.Wait.Exit.{ExitStrategy, exit_round, exit_wait, exit_step, limited}
use testcontainers_go.Wait.File.{
  FileStrategy, match_file, match_copy, matched, file_round, file_wait, file_decision,
}

module _ {W Body : Type 0} (C : Clock W) (T : Target W Body) where
  -- A reading of the state that says that the container no longer runs.
  abbrev pub says_gone : Result ContainerState → Bool
  says_gone (err e) = contains (message e) "No such container"
  says_gone (ok s) = not s.running

  exit_accepted :
      (ws : ExitStrategy) (r : Result ContainerState) (v w' : W)
      → exit_step C T ws r v ≡ (stop none, w')
      → (says_gone r ≡ true) × (v ≡ w')
  unfolding exit_step
  exit_accepted ws (err e) v w' h = (ground arith, ground arith)
  exit_accepted ws (ok s) v w' h = (ground arith, ground arith)

  -- The wait for an exit reports success only after a reading, under its context, that says that
  -- the container no longer runs: a state that is not running, or an error that there is no such
  -- container.
  pub exit_wait_ready :
      (n : ℕ) (ws : ExitStrategy) (ctx : Ctx) (w w' : W)
      → exit_wait C T n ws ctx w ≡ (some none, w')
      → (v : W) × (r : Result ContainerState) × (T.state (limited C ws.timeout ctx w) v ≡ (r, w'))
        × (says_gone r ≡ true)
  unfolding exit_wait exit_round
  exit_wait_ready n ws ctx w w' h =
      let inner = limited C ws.timeout ctx w in
      let (v, e) = last_round _ (poll_sound (exit_round C T ws inner) n w w' none h) in
      let ran = (tick_stop _ (ctx_err C inner v) e).1 in
      let r = T.state inner v in
      let (gone, same) = exit_accepted ws r.0 r.1 w' ran in (v, r.0, (λ i. (r.0, same i)), gone)

  -- A copy of the file that the matcher, where there is one, has nothing against.
  abbrev pub Matches : Option (Body → Option Error) → Body → Type 0
  Matches none body = Unit
  Matches (some m) body = m body ≡ none

  file_accepted :
      (m : Option (Body → Option Error)) (r : Result Body)
      → match_copy m r ≡ none
      → (body : Body) × (r ≡ ok body) × Matches m body
  unfolding match_copy matched
  file_accepted m (err e) h = cc
  file_accepted none (ok body) h = (body, refl, tt)
  file_accepted (some m) (ok body) h = (body, refl, ground arith)

  module _ (is_not_found : Error → Bool) where
    no_error : (r : Option Error) → file_decision is_not_found r ≡ stop none → r ≡ none
    unfolding file_decision
    no_error none h = refl
    no_error (some e) h = ground arith

    -- The file strategy reports readiness only after a copy of its file, under the limited
    -- context, that the matcher, where there is one, has nothing against; the world is the one
    -- after that copy.
    pub file_wait_ready :
        (n : ℕ) (ws : FileStrategy Body) (ctx : Ctx) (w w' : W)
        → file_wait C T is_not_found n ws ctx w ≡ (some none, w')
        → (v : W) × (body : Body) × (T.copy_file_from_container
              (with_timeout C ctx (timeout_or_default ws.timeout) w)
              ws.file
              v
            ≡ (ok body, w'))
          × Matches ws.matcher body
    unfolding file_wait file_round match_file
    file_wait_ready n ws ctx w w' h =
        let inner = with_timeout C ctx (timeout_or_default ws.timeout) w in
        let (u, e) =
          last_round _ (poll_sound (file_round C T is_not_found ws inner) n w w' none h) in
        let v = (C.select_tick inner ws.poll_interval u).1 in
        let ran = (tick_stop _ (C.select_tick inner ws.poll_interval u).0 e).1 in
        let r = T.copy_file_from_container inner ws.file v in
        let (body, got, m) =
          file_accepted ws.matcher r.0 (no_error (match_copy ws.matcher r.0) (ap (λ s. s.0) ran)) in
        (v, body, (λ i. (got i, (ran i).1)), m)
