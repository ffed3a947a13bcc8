-- ===== src/Wait/Target.antt =====
-- wait/wait.go: the target of a strategy, and the check that the container is alive.
use testcontainers_go.Base.{
  ℕ, ◌*◌, String, ◌=s◌, Bool, true, Option, none, some, List, if◌then◌else◌, M, ◌>>=◌, pure,
}
use testcontainers_go.Errors.{Error, new, coded, quoted, wrap, suffix, wrap_two, Result, ok, err}
use testcontainers_go.Clock.{Ctx}

-- The fields of `types.ContainerState` that the strategies read.
pub record ContainerState : Type 0 where
  pub running : Bool
  pub oom_killed : Bool
  pub status : String
  pub exit_code : ℕ
  pub health : Option String

-- A published port: the container's port, and the host's ports bound to it.
pub record PortEntry : Type 0 where
  pub port : String
  pub bindings : List String

-- `StrategyTarget`; `Body` is what a reader yields. `exec` gives the exit code and the output.
pub record Target (W Body : Type 0) : Type 0 where
  pub host : Ctx → M W (Result String)
  pub inspect : Ctx → M W (Result (List PortEntry))
  pub mapped_port : Ctx → String → M W (String × Option Error)
  pub logs : Ctx → M W (Result Body)
  pub exec : Ctx → List String → M W (Result (ℕ × Body))
  pub state : Ctx → M W (Result ContainerState)
  pub copy_file_from_container : Ctx → String → M W (Result Body)

-- `nat.Port` of a library: a text such as "80/tcp" with its parts.
pub record PortApi : Type 0 where
  pub proto : String → String
  pub int : String → ℕ
  pub number : String → String
  pub new_port : String → String → String × Option Error

unfoldable pub check_state : ContainerState → Option Error
check_state s =
    if s.running
    then none
    else if s.oom_killed
    then some (new "container crashed with out-of-memory (OOMKilled)")
    else if s.status =s "exited"
    then some (coded "container exited with code" s.exit_code)
    else some (quoted "unexpected container status" s.status)

unfoldable pub check_result : Result ContainerState → Option Error
unfolding check_state
check_result (err e) = some (wrap "get state" e)
check_result (ok s) = check_state s

unfoldable pub check_target : {W Body : Type 0} → Target W Body → Ctx → M W (Option Error)
unfolding check_result
check_target T ctx = do r ← T.state ctx; pure (check_result r)

-- 60 s and 100 ms, in nanoseconds.
abbrev pub default_startup_timeout : ℕ
default_startup_timeout = 60 * 1_000_000_000

abbrev pub default_poll_interval : ℕ
default_poll_interval = 100 * 1_000_000

-- `timeout := defaultStartupTimeout(); if ws.timeout != nil { timeout = *ws.timeout }`
unfoldable pub timeout_or_default : Option ℕ → ℕ
timeout_or_default none = default_startup_timeout
timeout_or_default (some d) = d

-- `matcher == nil || matcher(a)`
abbrev pub accepts : {A : Type 0} → Option (A → Bool) → A → Bool
accepts none a = true
accepts (some f) a = f a

-- `fmt.Errorf("%w: %w", ctx.Err(), err)`, where err may be nil.
unfoldable pub with_cause : Error → Option Error → Error
with_cause ce none = suffix ce "%!w(<nil>)"
with_cause ce (some e) = wrap_two ce e
