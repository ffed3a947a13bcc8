-- ===== src/Logs/Production.antt =====
-- docker.go, startLogProduction and stopLogProduction: the goroutine that produces the logs and the
-- caller that stops it, as steps of what they share: a channel of one place for the stop, and one
-- of one place for the error, which the goroutine closes when it ends.
pub mod Stopping
pub mod Within
use testcontainers_go.Base.{
  ℕ, suc, Bool, true, false, ◌||◌, Option, none, some, if◌then◌else◌, ltb, ◌*◌,
}
use testcontainers_go.Errors.{Error, is}
use testcontainers_go.Clock.{deadline_exceeded, context_canceled}

-- `minLogProductionTimeout`, `maxLogProductionTimeout`
abbrev pub min_log_production_timeout : ℕ
min_log_production_timeout = 5 * 1000000000

abbrev pub max_log_production_timeout : ℕ
max_log_production_timeout = 60 * 1000000000

-- The timeout of a round of the goroutine.
unfoldable pub log_production_timeout : Option ℕ → ℕ
log_production_timeout none = min_log_production_timeout
log_production_timeout (some d) =
    if ltb d min_log_production_timeout
    then min_log_production_timeout
    else if ltb max_log_production_timeout d
    then max_log_production_timeout
    else d

-- Where the goroutine is: at BEGIN, at the select, at the reading of a frame, or over.
pub data Phase : Type 0 where
  asking : Phase
  polling : Phase
  reading : Phase
  finished : Phase

-- Where the caller of stopLogProduction is: at the send, at what waits for the goroutine, or back.
pub data Caller : Type 0 where
  calling : Caller
  waiting : Caller
  returned : Option Error → Caller

-- The goroutine, whether a stop is in its channel, the error in its channel, and the caller.
pub data Production : Type 0 where
  production : Phase → Bool → Option (Option Error) → Caller → Production

-- What stopLogProduction makes of what it receives; a closed channel without a value gives nil.
unfoldable pub stop_result : Option (Option Error) → Option Error
stop_result none = none
stop_result (some none) = none
stop_result (some (some e)) =
    if is e deadline_exceeded || is e context_canceled then none else some e

abbrev pub started : Production
started = production asking false none calling

-- Another call of stopLogProduction.
unfoldable pub stop_again : Production → Production
stop_again (production p s e c) = production p s e calling

-- A send waits for a free place. `observes` is somebody else who receives from the channel that
-- GetLogProductionErrorChannel gives.
pub data Step : Production → Production → Type 0 where
  ask_fails :
      (x : Error) {s : Bool} {c : Caller}
      → Step (production asking s none c) (production finished s (some (some x)) c)
  asks :
      {s : Bool} {e : Option (Option Error)} {c : Caller}
      → Step (production asking s e c) (production polling s e c)
  polls :
      {e : Option (Option Error)} {c : Caller}
      → Step (production polling false e c) (production reading false e c)
  stops :
      (x : Option Error) {c : Caller}
      → Step (production polling true none c) (production finished false (some x) c)
  reads :
      {s : Bool} {e : Option (Option Error)} {c : Caller}
      → Step (production reading s e c) (production polling s e c)
  resets :
      {s : Bool} {e : Option (Option Error)} {c : Caller}
      → Step (production reading s e c) (production asking s e c)
  quits :
      {s : Bool} {e : Option (Option Error)} {c : Caller}
      → Step (production reading s e c) (production finished s e c)
  sends :
      {p : Phase} {e : Option (Option Error)}
      → Step (production p false e calling) (production p true e waiting)
  receives :
      {s : Bool} {e : Option (Option Error)}
      → Step
          (production finished s e waiting)
          (production finished s none (returned (stop_result e)))
  observes :
      {p : Phase} {s : Bool} {x : Option Error} {c : Caller}
      → Step (production p s (some x) c) (production p s none c)

-- So many steps.
pub data Steps : ℕ → Production → Production → Type 0 where
  here : {s : Production} → Steps 0 s s
  next : {n : ℕ} {s t u : Production} → Steps n s t → Step t u → Steps (suc n) s u
