-- ===== src/Modules/Postgres/Laws.antt =====
-- modules/postgres: a snapshot that is restored, and one that is taken twice under one name.
use testcontainers_go.Modules.Postgres.Server.{
  taken, IsServer, commands_connected, after_snapshot, after_restore, snapshot_commands,
  restore_commands, snapshot_commands-run, restore_commands-run, check_snapshot_config_named,
}
use testcontainers_go.Base.{
  String, ◌=s◌, ◌≡◌, ap, ◌∙◌, Bool, true, false, Option, none, some, [], ◌∷◌, if◌then◌else◌,
}
use testcontainers_go.Errors.{Error, ok}
use testcontainers_go.Modules.Postgres.{PostgresContainer}
use testcontainers_go.Modules.Postgres.Snapshots.{
  Api, drop_if_exists, create_from, mark_template, with_snapshot_name, configured_name,
  cleanup_pool, snapshot_connection, command_failed, exec_all, exec_connected, exec_commands_sql,
  named_if, snapshot_named, snapshot, restore_named, restore,
}

module _ {Ctx Pool Conn W Content : Type 0} (P : Api Ctx Pool Conn W) (ctx : Ctx) (conn : Conn)
    (pool : Pool) (db : W → String → Option (Content × Bool)) (c : PostgresContainer)
    (name : String) where
  snapshot_taken :
      (w : W)
      → c.db_name =s "postgres" ≡ false
      → name =s "" ≡ false
      → snapshot P ctx (with_snapshot_name name ∷ []) (c, w)
        ≡ named_if P c name (
            exec_commands_sql P ctx c
              (drop_if_exists name ∷ create_from name c.db_name c.user ∷ mark_template name ∷ [])
              w)
  unfolding snapshot snapshot_named configured_name with_snapshot_name
  snapshot_taken w db_ok named =
      ap (λ o. snapshot_named P ctx c o w)
        (check_snapshot_config_named (with_snapshot_name name ∷ []) c db_ok)
      ∙ ap (λ t. snapshot_named P ctx c (ok (if t then c.snapshot_name else name)) w) named

  module _ (S : IsServer P ctx conn pool db c name) (apart : name =s c.db_name ≡ false) where
    snapshot_run :
        (x : Content) (w v : W)
        → c.db_name =s "postgres" ≡ false
        → name =s "" ≡ false
        → snapshot_connection P ctx c w ≡ some (ok (pool, conn), v)
        → db w name ≡ none
        → db w c.db_name ≡ some (x, false)
        → let w' = cleanup_pool P pool (after_snapshot P ctx conn pool db c name v) in
          (snapshot P ctx (with_snapshot_name name ∷ []) (c, w)
            ≡ some (none, ((taken P ctx conn pool db c name), w')))
          × (db w' name ≡ some (x, true))
          × (db w' c.db_name ≡ some (x, false))
    unfolding named_if snapshot_commands
    snapshot_run x w v db_ok named h absent has =
        let (r, a, b) =
          snapshot_commands-run P ctx conn pool db c name S apart x v
            (S.connects c w v name h ∙ absent) (S.connects c w v c.db_name h ∙ has) in
        let u = after_snapshot P ctx conn pool db c name v in
        (
          snapshot_taken w db_ok named
              ∙ ap (λ o. named_if P c name o)
                  (commands_connected P ctx conn pool db c name c
                    (snapshot_commands P ctx conn pool db c name) w v u h r),
          S.closes u name ∙ a,
          S.closes u c.db_name ∙ b,
        )

    restore_run :
        (x y : Content) (w v : W)
        → c.db_name =s "postgres" ≡ false
        → snapshot_connection P ctx (taken P ctx conn pool db c name) w ≡ some (ok (pool, conn), v)
        → db w name ≡ some (x, true)
        → db w c.db_name ≡ some (y, false)
        → let w' = cleanup_pool P pool (after_restore P ctx conn pool db c name v) in
          (restore P ctx [] ((taken P ctx conn pool db c name), w) ≡ some (none, w'))
          × (db w' c.db_name ≡ some (x, false))
          × (db w' name ≡ some (x, true))
    unfolding restore restore_named configured_name restore_commands
    restore_run x y w v db_ok h kept has =
        let (r, a, b) =
          restore_commands-run P ctx conn pool db c name S apart x y v
            (S.connects (taken P ctx conn pool db c name) w v name h ∙ kept)
            (S.connects (taken P ctx conn pool db c name) w v c.db_name h ∙ has) in
        let u = after_restore P ctx conn pool db c name v in
        (
          ap (λ o. restore_named P ctx (taken P ctx conn pool db c name) o w)
                (check_snapshot_config_named [] (taken P ctx conn pool db c name) db_ok)
              ∙ commands_connected P ctx conn pool db c name (taken P ctx conn pool db c name)
                  (restore_commands P ctx conn pool db c name) w v u h r,
          S.closes u c.db_name ∙ a,
          S.closes u name ∙ b,
        )

  -- On a server whose commands do what PostgreSQL documents, over a connection: a snapshot, under
  -- a name other than "" that no database has, of the container's database, which is neither
  -- "postgres" nor of that name nor a template, succeeds, makes a template of its content under
  -- that name, leaves the database as it was and keeps the name in the container; and a
  -- restoration, where that template is still there and the database is no template, succeeds,
  -- gives the database the content of the template, and leaves the template as it was.
  pub snapshot-restore :
      (S : IsServer P ctx conn pool db c name) (apart : name =s c.db_name ≡ false) (x y : Content)
      (w v u z : W)
      → c.db_name =s "postgres" ≡ false
      → name =s "" ≡ false
      → snapshot_connection P ctx c w ≡ some (ok (pool, conn), v)
      → db w name ≡ none
      → db w c.db_name ≡ some (x, false)
      → snapshot_connection P ctx (taken P ctx conn pool db c name) u ≡ some (ok (pool, conn), z)
      → db u name ≡ some (x, true)
      → db u c.db_name ≡ some (y, false)
      → ((w' : W) × (snapshot P ctx (with_snapshot_name name ∷ []) (c, w)
            ≡ some (none, (taken P ctx conn pool db c name, w')))
          × (db w' name ≡ some (x, true))
          × (db w' c.db_name ≡ some (x, false)))
        × ((u' : W) × (restore P ctx [] (taken P ctx conn pool db c name, u) ≡ some (none, u'))
            × (db u' c.db_name ≡ some (x, false))
            × (db u' name ≡ some (x, true)))
  snapshot-restore S apart x y w v u z db_ok named h absent has h2 kept has2 =
      let (a, b, d) = snapshot_run S apart x w v db_ok named h absent has in
      let (p, q, r) = restore_run S apart x y u z db_ok h2 kept has2 in ((_, a, b, d), (_, p, q, r))

  -- A snapshot under a name other than "", of a database other than "postgres", where there already is
  -- a template of that name, fails and leaves the container's snapshot name as it was.
  pub snapshot-again :
      (S : IsServer P ctx conn pool db c name) (x : Content) (w v : W)
      → c.db_name =s "postgres" ≡ false
      → name =s "" ≡ false
      → snapshot_connection P ctx c w ≡ some (ok (pool, conn), v)
      → db w name ≡ some (x, true)
      → (e : Error) × (u : W) × (snapshot P ctx (with_snapshot_name name ∷ []) (c, w)
          ≡ some (some e, (c, u)))
  unfolding snapshot snapshot_named configured_name with_snapshot_name named_if exec_commands_sql
      exec_connected exec_all command_failed
  snapshot-again S x w v db_ok named h kept =
      let (e, k) = S.keeps_template x v (S.connects c w v name h ∙ kept) in
      let cmd = drop_if_exists name in
      let rest = create_from name c.db_name c.user ∷ mark_template name ∷ [] in
      let w1 = (P.exec_context ctx conn cmd v).1 in
      (
        _,
        _,
        snapshot_taken w db_ok named
            ∙ ap (λ o. named_if P c name (exec_connected P ctx c (cmd ∷ rest) o)) h
            ∙ ap
                (λ o. named_if P c name (
                  let (r, t) = command_failed P cmd (o, w1) (λ t. exec_all P ctx conn rest t) in
                  some (r, cleanup_pool P pool t)))
                k,
      )
