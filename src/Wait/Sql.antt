-- ===== src/Wait/Sql.antt =====
-- wait/sql.go: a query is repeated until the database answers it.
use testcontainers_go.Base.{ℕ, String, Option, none, some, M, ◌>>=◌, pure}
use testcontainers_go.Errors.{Error, wrap, Result, ok, err}
use testcontainers_go.Clock.{Ctx, Clock, with_timeout}
use testcontainers_go.Wait.Target.{
  Target, check_target, default_poll_interval, default_startup_timeout, timeout_or_default,
}
use testcontainers_go.Wait.Poll.{Step, again, stop, on_tick, poll}
use testcontainers_go.Wait.Port.{map_port}

pub record SqlStrategy : Type 0 where
  pub timeout : Option ℕ
  pub url : String → String → String
  pub driver : String
  pub port : String
  pub startup_timeout : ℕ
  pub poll_interval : ℕ
  pub query : String

unfoldable pub for_sql : String → String → (String → String → String) → SqlStrategy
for_sql port driver url = record {
  timeout = none;
  url = url;
  driver = driver;
  port = port;
  startup_timeout = default_startup_timeout;
  poll_interval = default_poll_interval;
  query = "SELECT 1";
}

unfoldable pub with_startup_timeout : SqlStrategy → ℕ → SqlStrategy
with_startup_timeout w d = record w { timeout = some d }

unfoldable pub with_poll_interval : SqlStrategy → ℕ → SqlStrategy
with_poll_interval w d = record w { poll_interval = d }

unfoldable pub with_query : SqlStrategy → String → SqlStrategy
with_query w query = record w { query = query }

-- A query that fails is asked again.
unfoldable pub sql_decision : Option Error → Step
sql_decision none = stop none
sql_decision (some e) = again

-- `open_db` and `exec_context` are `sql.Open` and `db.ExecContext` of a database of type `Db`.
module _ {W Body Db : Type 0} (C : Clock W) (T : Target W Body)
    (open_db : String → String → M W (Result Db))
    (exec_context : Ctx → Db → String → M W (Option Error)) where
  unfoldable pub sql_round : SqlStrategy → Ctx → Db → M W Step
  unfolding sql_decision check_target on_tick
  sql_round ws ctx db = do
    e ← C.select_tick ctx ws.poll_interval
    on_tick e (do
      alive ← check_target T ctx
      on_tick alive (do r ← exec_context ctx db ws.query; pure (sql_decision r)))

  unfoldable pub opened : ℕ → SqlStrategy → Ctx → Result Db → M W (Option (Option Error))
  unfolding sql_round poll
  opened n ws ctx (err e) w = (some (some (wrap "sql.Open" e)), w)
  opened n ws ctx (ok db) w = poll n (sql_round ws ctx db) w

  unfoldable pub sql_host_known :
      ℕ → SqlStrategy → Ctx → Result String → M W (Option (Option Error))
  unfolding opened map_port
  sql_host_known n ws ctx (err e) w = (some (some e), w)
  sql_host_known n ws ctx (ok host) w =
      map_port T ctx ws.port n (C.select_tick ctx ws.poll_interval)
        (λ port. do r ← open_db ws.driver (ws.url host port); opened n ws ctx r) w

  unfoldable pub sql_wait : ℕ → SqlStrategy → Ctx → M W (Option (Option Error))
  unfolding sql_host_known with_timeout timeout_or_default
  sql_wait n ws ctx w =
      let inner = with_timeout C ctx (timeout_or_default ws.timeout) w in
      (do r ← T.host inner; sql_host_known n ws inner r) w
