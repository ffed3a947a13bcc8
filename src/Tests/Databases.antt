-- ===== src/Tests/Databases.antt =====
-- modules/postgres: the theorems at a server of two databases.
use testcontainers_go.Base.{
  ℕ, String, ◌=s◌, ◌≡◌, refl, sym, ap, Bool, true, false, Option, none, some, [], ◌∷◌,
  if◌then◌else◌,
}
use testcontainers_go.Errors.{Error, new, Result, ok}
use testcontainers_go.Errors.Flow.{and_then, ◌>>=◌}
use testcontainers_go.Modules.Postgres.{PostgresContainer}
use testcontainers_go.Modules.Postgres.Snapshots.{
  Api, drop_if_exists, create_from, mark_template, drop_force, with_snapshot_name, cleanup_pool,
  closed_or_printed, snapshot_connection, connection_by, connection_string, pool_connection,
  connection_of, snapshot, restore,
}
use testcontainers_go.Modules.Postgres.Server.{IsServer, after}
use testcontainers_go.Modules.Postgres.Laws.{snapshot-restore}

abbrev Database : Type 0
Database = Option (ℕ × Bool)

abbrev Databases : Type 0
Databases = String → Database

abbrev put : String → Database → Databases → Databases
put name d w m = if name =s m then d else w m

unfoldable copied : Database → Database
copied none = none
copied (some (x, t)) = some (x, false)

unfoldable marked : Database → Database
marked none = none
marked (some (x, t)) = some (x, true)

unfoldable drop_at : String → Database → Databases → Option Error × Databases
drop_at name (some (x, true)) w = (some (new "cannot drop a template database"), w)
drop_at name (some (x, false)) w = (none, put name none w)
drop_at name none w = (none, put name none w)

-- The commands on the databases "app" and "snap".
unfoldable run_sql : String → Databases → Option Error × Databases
unfolding copied marked drop_at
run_sql cmd w =
    if cmd =s "DROP DATABASE IF EXISTS \"snap\""
    then drop_at "snap" (w "snap") w
    else (if cmd =s "CREATE DATABASE \"snap\" WITH TEMPLATE \"app\" OWNER \"me\""
        then (none, put "snap" (copied (w "app")) w)
        else (if cmd =s "ALTER DATABASE \"snap\" WITH is_template = TRUE"
            then (none, put "snap" (marked (w "snap")) w)
            else (if cmd =s "DROP DATABASE \"app\" with (FORCE)"
                then drop_at "app" (w "app") w
                else (if cmd =s "CREATE DATABASE \"app\" WITH TEMPLATE \"snap\" OWNER \"me\""
                    then (none, put "app" (copied (w "snap")) w)
                    else (none, w)))))

abbrev api : Api Unit Unit Unit Databases
api = record {
  mapped_port = λ c p w. (ok "5432", w);
  host = λ c w. (ok "localhost", w);
  join_host_port = λ h p. h;
  sql_open = λ d t w. (ok tt, w);
  pool_conn = λ c p w. (ok tt, w);
  pool_close = λ p w. (none, w);
  exec_context = λ c k cmd w. run_sql cmd w;
  container_exec = λ c cmd w. (ok (0, ok ""), w);
  printf = λ t w. w;
}

abbrev app_container : PostgresContainer
app_container = record {
  db_name = "app";
  user = "me";
  password = "secret";
  snapshot_name = "";
  sql_driver_name = "postgres";
}

unfoldable state_of : Databases → Option (Result (Unit × Unit) × Databases) → Databases
state_of w none = w
state_of w (some (r, v)) = v

unchanged :
    (d : PostgresContainer) (w v : Databases)
    → snapshot_connection api tt d w ≡ some (ok (tt, tt), v)
    → v ≡ w
unfolding snapshot_connection connection_by connection_string pool_connection connection_of ◌>>=◌
    and_then state_of
unchanged d w v h = sym (ap (state_of w) h)

server : IsServer api tt tt tt (λ w. w) app_container "snap"
unfolding drop_if_exists create_from mark_template drop_force run_sql drop_at copied marked
    cleanup_pool closed_or_printed after
server = record {
  connects = λ d w v m h. ap (λ u. u m) (unchanged d w v h);
  closes = λ w m. refl;
  drops_absent =
      λ w h. (ap (λ d. (drop_at "snap" d w).0) h, λ m. ap (λ d. (drop_at "snap" d w).1 m) h);
  copies = λ x w _ h. (refl, λ m. ap (λ d. put "snap" (copied d) w m) h);
  marks = λ x w h. (refl, λ m. ap (λ d. put "snap" (marked d) w m) h);
  drops_forced =
      λ x w h. (ap (λ d. (drop_at "app" d w).0) h, λ m. ap (λ d. (drop_at "app" d w).1 m) h);
  copies_back = λ x w _ h. (refl, λ m. ap (λ d. put "app" (copied d) w m) h);
  keeps_template = λ x w h. (_, ap (λ d. (drop_at "snap" d w).0) h);
}

abbrev fresh : Databases
fresh = put "app" (some (1, false)) (λ m. none)

abbrev changed : Databases
changed = put "app" (some (2, false)) (put "snap" (some (1, true)) fresh)

connected_api :
    (d : PostgresContainer) (w : Databases) → snapshot_connection api tt d w ≡ some (ok (tt, tt), w)
unfolding snapshot_connection connection_by connection_string pool_connection connection_of ◌>>=◌
    and_then
connected_api d w = refl

snapshot-restore_example :
    ((w' : Databases) × (snapshot api tt (with_snapshot_name "snap" ∷ []) (app_container, fresh)
        ≡ some (none, (record app_container { snapshot_name = "snap" }, w')))
      × (w' "snap" ≡ some (1, true))
      × (w' "app" ≡ some (1, false)))
    × ((u' : Databases) × (restore api tt []
            (record app_container { snapshot_name = "snap" }, changed)
          ≡ some (none, u'))
        × (u' "app" ≡ some (1, false))
        × (u' "snap" ≡ some (1, true)))
snapshot-restore_example =
    snapshot-restore api tt tt tt (λ w. w) app_container "snap" server refl 1 2 fresh fresh changed
      changed refl refl (connected_api _ fresh) refl refl (connected_api _ changed) refl refl
