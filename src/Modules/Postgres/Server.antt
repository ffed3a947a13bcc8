-- ===== src/Modules/Postgres/Server.antt =====
-- The commands of modules/postgres on a server, by what PostgreSQL documents of them.
use testcontainers_go.Base.{
  String, ◌=s◌, =s_iff, ◌≡◌, refl, ap, ◌∙◌, Bool, true, false, Option, none, some, List, [], ◌∷◌,
  if◌then◌else◌, arith,
}
use testcontainers_go.Errors.{Error, ok}
use testcontainers_go.Modules.Postgres.{PostgresContainer}
use testcontainers_go.Modules.Postgres.Snapshots.{
  Api, drop_if_exists, create_from, mark_template, drop_force, configured_name,
  check_snapshot_config, cleanup_pool, snapshot_connection, command_failed, exec_all,
  exec_connected, exec_commands_sql, SnapshotOption,
}

pub check_snapshot_config_named :
    (opts : List SnapshotOption) (d : PostgresContainer)
    → d.db_name =s "postgres" ≡ false
    → check_snapshot_config opts d
      ≡ ok (let n = configured_name opts "" in if n =s "" then d.snapshot_name else n)
unfolding check_snapshot_config
check_snapshot_config_named opts d h = simp (h)

module _ {Ctx Pool Conn W Content : Type 0} (P : Api Ctx Pool Conn W) (ctx : Ctx) (conn : Conn)
    (pool : Pool) (db : W → String → Option (Content × Bool)) (c : PostgresContainer)
    (name : String) where
  unfoldable pub after : String → W → W
  after cmd w = (P.exec_context ctx conn cmd w).1

  -- The command succeeds, and one database is then as said, the others as they were.
  abbrev pub Sets : String → String → Option (Content × Bool) → W → Type 0
  Sets cmd of value w =
      ((P.exec_context ctx conn cmd w).0 ≡ none)
      × ((m : String) → db (after cmd w) m ≡ (if of =s m then value else db w m))

  abbrev pub taken : PostgresContainer
  taken = record c { snapshot_name = name }

  -- `db` gives the content of a database, and whether it is a template. Neither connecting nor
  -- closing changes a database; a template cannot be dropped; no other session uses a database that
  -- is copied.
  pub record IsServer : Type 0 where
    pub connects :
        (d : PostgresContainer) (w v : W) (m : String)
        → snapshot_connection P ctx d w ≡ some (ok (pool, conn), v)
        → db v m ≡ db w m
    pub closes : (w : W) (m : String) → db (cleanup_pool P pool w) m ≡ db w m
    pub drops_absent : (w : W) → db w name ≡ none → Sets (drop_if_exists name) name none w
    pub copies :
        (x : Content) (w : W)
        → db w name ≡ none
        → db w c.db_name ≡ some (x, false)
        → Sets (create_from name c.db_name c.user) name (some (x, false)) w
    pub marks :
        (x : Content) (w : W)
        → db w name ≡ some (x, false)
        → Sets (mark_template name) name (some (x, true)) w
    pub drops_forced :
        (x : Content) (w : W)
        → db w c.db_name ≡ some (x, false)
        → Sets (drop_force c.db_name) c.db_name none w
    pub copies_back :
        (x : Content) (w : W)
        → db w c.db_name ≡ none
        → db w name ≡ some (x, true)
        → Sets (create_from c.db_name name c.user) c.db_name (some (x, false)) w
    pub keeps_template :
        (x : Content) (w : W)
        → db w name ≡ some (x, true)
        → (e : Error) × ((P.exec_context ctx conn (drop_if_exists name) w).0 ≡ some e)

  exec_all-step :
      (cmd : String) (cmds : List String) (w : W)
      → (P.exec_context ctx conn cmd w).0 ≡ none
      → exec_all P ctx conn (cmd ∷ cmds) w ≡ exec_all P ctx conn cmds (after cmd w)
  unfolding exec_all command_failed after
  exec_all-step cmd cmds w h =
      ap
        (λ o.
          command_failed P cmd (o, (P.exec_context ctx conn cmd w).1)
            (λ v. exec_all P ctx conn cmds v))
        h

  exec_all_end : (w : W) → exec_all P ctx conn [] w ≡ (none, w)
  unfolding exec_all
  exec_all_end w = refl

  set_at :
      (cmd of : String) (value : Option (Content × Bool)) (w : W)
      → Sets cmd of value w
      → db (after cmd w) of ≡ value
  set_at cmd of value w (_, s) =
      s of ∙ ap (λ b. if b then value else db w of) ((=s_iff of of).1 refl)

  -- What the commands do where they are run over a connection.
  pub commands_connected :
      (d : PostgresContainer) (cmds : List String) (w v v2 : W)
      → snapshot_connection P ctx d w ≡ some (ok (pool, conn), v)
      → exec_all P ctx conn cmds v ≡ (none, v2)
      → exec_commands_sql P ctx d cmds w ≡ some (none, cleanup_pool P pool v2)
  unfolding exec_commands_sql exec_connected
  commands_connected d cmds w v v2 h r =
      ap (λ o. exec_connected P ctx d cmds o) h ∙ ap (λ q. some (q.0, cleanup_pool P pool q.1)) r

  set_away :
      (cmd of m : String) (value : Option (Content × Bool)) (w : W)
      → Sets cmd of value w
      → of =s m ≡ false
      → db (after cmd w) m ≡ db w m
  set_away cmd of m value w (_, s) n = s m ∙ ap (λ b. if b then value else db w m) n

  -- The states between the commands of a snapshot, and of a restoration.
  unfoldable pub after_snapshot : W → W
  unfolding after
  after_snapshot w =
      after (mark_template name)
        (after (create_from name c.db_name c.user) (after (drop_if_exists name) w))

  unfoldable pub after_restore : W → W
  unfolding after
  after_restore w = after (create_from c.db_name name c.user) (after (drop_force c.db_name) w)

  unfoldable pub snapshot_commands : List String
  snapshot_commands =
      drop_if_exists name ∷ create_from name c.db_name c.user ∷ mark_template name ∷ []

  unfoldable pub restore_commands : List String
  restore_commands = drop_force c.db_name ∷ create_from c.db_name name c.user ∷ []

  module _ (S : IsServer) (apart : name =s c.db_name ≡ false) where
    apart_back : c.db_name =s name ≡ false
    apart_back = ground (arith, =s_iff c.db_name name, =s_iff name c.db_name)

    pub snapshot_commands-run :
        (x : Content) (w : W)
        → db w name ≡ none
        → db w c.db_name ≡ some (x, false)
        → (exec_all P ctx conn snapshot_commands w ≡ (none, after_snapshot w))
          × (db (after_snapshot w) name ≡ some (x, true))
          × (db (after_snapshot w) c.db_name ≡ some (x, false))
    unfolding after_snapshot snapshot_commands
    snapshot_commands-run x w absent has =
        let drop = drop_if_exists name in
        let copy = create_from name c.db_name c.user in
        let mark = mark_template name in
        let w1 = after drop w in
        let w2 = after copy w1 in
        let d = S.drops_absent w absent in
        let has1 = set_away drop name c.db_name none w d apart ∙ has in
        let p = S.copies x w1 (set_at drop name none w d) has1 in
        let has2 = set_away copy name c.db_name (some (x, false)) w1 p apart ∙ has1 in
        let k = S.marks x w2 (set_at copy name (some (x, false)) w1 p) in
        (
          exec_all-step drop (copy ∷ mark ∷ []) w d.0
              ∙ exec_all-step copy (mark ∷ []) w1 p.0
              ∙ exec_all-step mark [] w2 k.0
              ∙ exec_all_end (after mark w2),
          set_at mark name (some (x, true)) w2 k,
          set_away mark name c.db_name (some (x, true)) w2 k apart ∙ has2,
        )

    pub restore_commands-run :
        (x y : Content) (w : W)
        → db w name ≡ some (x, true)
        → db w c.db_name ≡ some (y, false)
        → (exec_all P ctx conn restore_commands w ≡ (none, after_restore w))
          × (db (after_restore w) c.db_name ≡ some (x, false))
          × (db (after_restore w) name ≡ some (x, true))
    unfolding after_restore restore_commands
    restore_commands-run x y w kept has =
        let drop = drop_force c.db_name in
        let copy = create_from c.db_name name c.user in
        let w1 = after drop w in
        let d = S.drops_forced y w has in
        let kept1 = set_away drop c.db_name name none w d apart_back ∙ kept in
        let p = S.copies_back x w1 (set_at drop c.db_name none w d) kept1 in
        (
          exec_all-step drop (copy ∷ []) w d.0
              ∙ exec_all-step copy [] w1 p.0
              ∙ exec_all_end (after copy w1),
          set_at copy c.db_name (some (x, false)) w1 p,
          set_away copy c.db_name name (some (x, false)) w1 p apart_back ∙ kept1,
        )
