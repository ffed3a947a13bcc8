-- ===== src/Wait/File.antt =====
-- wait/file.go: a file is waited for to exist in the container and to match.
use testcontainers_go.Base.{ℕ, String, Bool, Option, none, some, if◌then◌else◌, M, ◌>>=◌, pure}
use testcontainers_go.Errors.{Error, wrap, Result, ok, err}
use testcontainers_go.Clock.{Ctx, Clock, with_timeout}
use testcontainers_go.Wait.Target.{Target, default_poll_interval, timeout_or_default}
use testcontainers_go.Wait.Poll.{Step, again, stop, on_tick, poll}

pub record FileStrategy (Body : Type 0) : Type 0 where
  pub timeout : Option ℕ
  pub file : String
  pub poll_interval : ℕ
  pub matcher : Option (Body → Option Error)

unfoldable pub matched : Option Error → Option Error
matched none = none
matched (some e) = some (wrap "matcher" e)

module _ {Body : Type 0} where
  unfoldable pub new_file_strategy : String → FileStrategy Body
  new_file_strategy file = record {
    timeout = none;
    file = file;
    poll_interval = default_poll_interval;
    matcher = none;
  }

  unfoldable pub with_startup_timeout : FileStrategy Body → ℕ → FileStrategy Body
  with_startup_timeout ws d = record ws { timeout = some d }

  unfoldable pub with_poll_interval : FileStrategy Body → ℕ → FileStrategy Body
  with_poll_interval ws d = record ws { poll_interval = d }

  unfoldable pub with_matcher : FileStrategy Body → (Body → Option Error) → FileStrategy Body
  with_matcher ws m = record ws { matcher = some m }

  -- `matchFile`, after the copy.
  unfoldable pub match_copy : Option (Body → Option Error) → Result Body → Option Error
  unfolding matched
  match_copy m (err e) = some (wrap "copy from container" e)
  match_copy none (ok body) = none
  match_copy (some m) (ok body) = matched (m body)

-- `is_not_found` is `errdefs.IsNotFound` of the Docker library, which looks through wrapped errors.
unfoldable pub file_decision : (Error → Bool) → Option Error → Step
file_decision is_not_found none = stop none
file_decision is_not_found (some e) =
    if is_not_found e then again else stop (some (wrap "copy from container" e))

module _ {W Body : Type 0} (C : Clock W) (T : Target W Body) (is_not_found : Error → Bool) where
  unfoldable pub match_file : FileStrategy Body → Ctx → M W (Option Error)
  unfolding match_copy
  match_file ws ctx = do r ← T.copy_file_from_container ctx ws.file; pure (match_copy ws.matcher r)

  unfoldable pub file_round : FileStrategy Body → Ctx → M W Step
  unfolding match_file file_decision on_tick
  file_round ws ctx = do
    e ← C.select_tick ctx ws.poll_interval
    on_tick e (do r ← match_file ws ctx; pure (file_decision is_not_found r))

  unfoldable pub file_wait : ℕ → FileStrategy Body → Ctx → M W (Option (Option Error))
  unfolding file_round poll with_timeout timeout_or_default
  file_wait n ws ctx w =
      poll n (file_round ws (with_timeout C ctx (timeout_or_default ws.timeout) w)) w
