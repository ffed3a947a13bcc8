-- ===== src/Modules/Postgres/Snapshots.antt =====
-- modules/postgres: Snapshot and Restore, over a connection or by psql in the container.
use testcontainers_go.Base.{
  ℕ, String, ◌<>◌, ◌=s◌, ◌==◌, Option, none, some, List, [], ◌∷◌, if◌then◌else◌, M,
}
use testcontainers_go.Errors.{Error, new, wrap, Result, ok, err, message}
use testcontainers_go.Errors.Flow.{Try, and_then, ◌>>=◌, done}
use testcontainers_go.Modules.Postgres.{PostgresContainer}

-- The calls on the container and on database/sql. What an execution prints may not be readable.
pub record Api (Ctx Pool Conn W : Type 0) : Type 0 where
  pub mapped_port : Ctx → String → Try W String
  pub host : Ctx → Try W String
  pub join_host_port : String → String → String
  pub sql_open : String → String → Try W Pool
  pub pool_conn : Ctx → Pool → Try W Conn
  pub pool_close : Pool → M W (Option Error)
  pub exec_context : Ctx → Conn → String → M W (Option Error)
  pub container_exec : Ctx → List String → Try W (ℕ × Result String)
  pub printf : String → W → W

-- `strings.Join(args, "&")`
unfoldable pub join_args : List String → String
join_args [] = ""
join_args (a ∷ []) = a
join_args (a ∷ b ∷ more) = a <> "&" <> join_args (b ∷ more)

unfoldable pub drop_if_exists : String → String
drop_if_exists name = "DROP DATABASE IF EXISTS \"" <> name <> "\""

unfoldable pub create_from : String → String → String → String
create_from name template owner =
    "CREATE DATABASE \"" <> name <> "\" WITH TEMPLATE \"" <> template <> "\" OWNER \"" <> owner
    <> "\""

unfoldable pub mark_template : String → String
mark_template name = "ALTER DATABASE \"" <> name <> "\" WITH is_template = TRUE"

unfoldable pub drop_force : String → String
drop_force name = "DROP DATABASE \"" <> name <> "\" with (FORCE)"

-- A `SnapshotOption`, on the name in the configuration.
abbrev pub SnapshotOption : Type 0
SnapshotOption = String → String

unfoldable pub with_snapshot_name : String → SnapshotOption
with_snapshot_name name old = name

unfoldable pub configured_name : List SnapshotOption → String → String
configured_name [] name = name
configured_name (o ∷ opts) name = configured_name opts (o name)

unfoldable pub check_snapshot_config : List SnapshotOption → PostgresContainer → Result String
unfolding configured_name
check_snapshot_config opts c =
    let name = configured_name opts "" in
    if c.db_name =s "postgres"
    then err
        (new "cannot restore the postgres system database as it cannot be dropped to be restored")
    else ok (if name =s "" then c.snapshot_name else name)

module _ {Ctx Pool Conn W : Type 0} (P : Api Ctx Pool Conn W) where
  unfoldable pub connection_string : Ctx → List String → PostgresContainer → Try W String
  unfolding ◌>>=◌ and_then join_args
  connection_string ctx args c = do
    port ← P.mapped_port ctx "5432/tcp"
    host ← P.host ctx
    done (
        "postgres://"
        <> c.user
        <> ":"
        <> c.password
        <> "@"
        <> P.join_host_port host port
        <> "/"
        <> c.db_name
        <> "?"
        <> join_args args)

  unfoldable pub closed_or_printed : Option Error × W → W
  closed_or_printed (none, w) = w
  closed_or_printed (some e, w) =
      P.printf ("Could not close database connection pool after restoring snapshot: " <> message e)
        w

  -- `cleanupPool`
  unfoldable pub cleanup_pool : Pool → W → W
  unfolding closed_or_printed
  cleanup_pool pool w = closed_or_printed (P.pool_close pool w)

  unfoldable pub connection_of : Pool → Result Conn × W → Result (Pool × Conn) × W
  unfolding cleanup_pool
  connection_of pool (ok conn, w) = (ok (pool, conn), w)
  connection_of pool (err e, w) =
      (err (wrap "DB.Conn for snapshot connection failed" e), cleanup_pool pool w)

  unfoldable pub pool_connection : Ctx → Result Pool × W → Result (Pool × Conn) × W
  unfolding connection_of
  pool_connection ctx (err e, w) = (err (wrap "sql.Open for snapshot connection failed" e), w)
  pool_connection ctx (ok pool, w) = connection_of pool (P.pool_conn ctx pool w)

  -- From the text of the connection on: `MustConnectionString` panics where there is none.
  unfoldable pub connection_by :
      Ctx → String → Result String × W → Option (Result (Pool × Conn) × W)
  unfolding pool_connection
  connection_by ctx driver (err e, w) = none
  connection_by ctx driver (ok text, w) = some (pool_connection ctx (P.sql_open driver text w))

  unfoldable pub snapshot_connection :
      Ctx → PostgresContainer → W → Option (Result (Pool × Conn) × W)
  unfolding connection_by connection_string
  snapshot_connection ctx c w =
      connection_by ctx c.sql_driver_name
        (connection_string ctx ("sslmode=disable" ∷ []) (record c { db_name = "postgres" }) w)

  unfoldable pub command_failed : String → Option Error × W → M W (Option Error) → Option Error × W
  command_failed cmd (some e, w) rest =
      (some (wrap ("could not execute restore command " <> cmd) e), w)
  command_failed cmd (none, w) rest = rest w

  -- The loop over the commands.
  unfoldable pub exec_all : Ctx → Conn → List String → M W (Option Error)
  unfolding command_failed
  exec_all ctx conn [] w = (none, w)
  exec_all ctx conn (cmd ∷ cmds) w =
      command_failed cmd (P.exec_context ctx conn cmd w) (λ v. exec_all ctx conn cmds v)

  unfoldable pub output_error : Result String → Error
  output_error (err e) =
      wrap "non-zero exit code for restore command, could not read command output" e
  output_error (ok output) = new ("non-zero exit code for restore command: " <> output)

  unfoldable pub exit_or_next :
      Result (ℕ × Result String) × W → M W (Option Error) → Option Error × W
  unfolding output_error
  exit_or_next (err e, w) rest = (some e, w)
  exit_or_next (ok (code, output), w) rest =
      if code == 0 then rest w else (some (output_error output), w)

  -- `execCommandsFallback`
  unfoldable pub exec_commands_fallback : Ctx → PostgresContainer → List String → M W (Option Error)
  unfolding exit_or_next
  exec_commands_fallback ctx c [] w = (none, w)
  exec_commands_fallback ctx c (cmd ∷ cmds) w =
      exit_or_next
        (P.container_exec ctx
          ("psql" ∷ "-v" ∷ "ON_ERROR_STOP=1" ∷ "-U" ∷ c.user ∷ "-d" ∷ "postgres" ∷ "-c" ∷ cmd ∷ [])
          w)
        (λ v. exec_commands_fallback ctx c cmds v)

  unfoldable pub exec_connected :
      Ctx
      → PostgresContainer
      → List String
      → Option (Result (Pool × Conn) × W)
      → Option (Option Error × W)
  unfolding exec_all exec_commands_fallback cleanup_pool
  exec_connected ctx c cmds none = none
  exec_connected ctx c cmds (some (err e, w)) = some (
      exec_commands_fallback ctx c cmds (
        P.printf
          ("Could not connect to database to restore snapshot, falling back to `docker exec psql`: "
            <> message e)
          w))
  exec_connected ctx c cmds (some (ok (pool, conn), w)) =
      let (r, v) = exec_all ctx conn cmds w in some (r, cleanup_pool pool v)

  -- `execCommandsSQL`
  unfoldable pub exec_commands_sql :
      Ctx → PostgresContainer → List String → W → Option (Option Error × W)
  unfolding exec_connected snapshot_connection
  exec_commands_sql ctx c cmds w = exec_connected ctx c cmds (snapshot_connection ctx c w)

  -- The name of the snapshot is kept where the commands succeed.
  unfoldable pub named_if :
      PostgresContainer
      → String
      → Option (Option Error × W)
      → Option (Option Error × (PostgresContainer × W))
  named_if c name none = none
  named_if c name (some (some e, w)) = some (some e, (c, w))
  named_if c name (some (none, w)) = some (none, (record c { snapshot_name = name }, w))

  unfoldable pub snapshot_named :
      Ctx → PostgresContainer → Result String → W → Option (Option Error × (PostgresContainer × W))
  unfolding named_if exec_commands_sql drop_if_exists create_from mark_template
  snapshot_named ctx c (err e) w = some (some e, (c, w))
  snapshot_named ctx c (ok name) w = named_if c name (
      exec_commands_sql ctx c
        (drop_if_exists name ∷ create_from name c.db_name c.user ∷ mark_template name ∷ []) w)

  -- `Snapshot`
  unfoldable pub snapshot :
      Ctx
      → List SnapshotOption
      → PostgresContainer × W
      → Option (Option Error × (PostgresContainer × W))
  unfolding snapshot_named check_snapshot_config
  snapshot ctx opts (c, w) = snapshot_named ctx c (check_snapshot_config opts c) w

  unfoldable pub restore_named :
      Ctx → PostgresContainer → Result String → W → Option (Option Error × W)
  unfolding exec_commands_sql drop_force create_from
  restore_named ctx c (err e) w = some (some e, w)
  restore_named ctx c (ok name) w =
      exec_commands_sql ctx c (drop_force c.db_name ∷ create_from c.db_name name c.user ∷ []) w

  -- `Restore`
  unfoldable pub restore :
      Ctx → List SnapshotOption → PostgresContainer × W → Option (Option Error × W)
  unfolding restore_named check_snapshot_config
  restore ctx opts (c, w) = restore_named ctx c (check_snapshot_config opts c) w
