-- ===== src/Migration/Upgrade.antt =====
-- `finish_v2_file` of crates/stateful-store/src/migration_v2.rs, and SQLite's statements, run on a
-- database that is migrated.
use stateful_core.Base.{Text, Option, none, ◌≡◌, sym, ◌∙◌}
use stateful_core.Migration.Disk.{main, manifest, plain, Disk, FileSet}
use stateful_core.Migration.Sqlite.{
  Sqlite, Statement, configure, switch_to_wal, create_v2_schema, drop_connection, execute,
  has_exact_v2_schema,
}
use stateful_core.Migration.Run.{configure_file_connection, finish_v2_file, run}
use stateful_core.Migration.Triple.{Triple, Keeps, pure-Triple, ◌then◌, weaken-Triple}
use stateful_core.Migration.Keeps.{
  restrict_database_permissions-Keeps, dropping-Triple, query-Triple,
}
use stateful_core.Migration.Changes.{held-Triple}
use stateful_core.Base.{if◌then◌else◌}
use stateful_core.Migration.Safe.{KeepsMarker, IsMarked, HasBackup, Migrated, Upgraded}
use stateful_core.Migration.Statements.{execute-Holding}
use stateful_core.Migration.Candidate.{require-Triple}
use stateful_core.Migration.Files.{restrict_database_permissions}

module _ {D : Type 0} (data_of : FileSet → Option D) (d : D) (db : Sqlite)
    (keeps : KeepsMarker db) where
  -- What the migration leaves besides the database.
  abbrev Rest : Disk → Type 0
  Rest disk = (disk manifest plain ≡ none) × ((c : Text) × HasBackup data_of d c disk)

  -- No statement takes the marker of version 2 away.
  pub execute-Migrated :
      (statement : Statement) → Keeps (Migrated data_of d db) (execute db statement main)
  execute-Migrated statement =
      let m = execute db statement main in
      weaken-Triple m (λ disk i. ((i.0, i.1), i.2)) (λ _ disk i. (i.0.0, i.0.1, i.1))
        (λ disk i. (i.0.0, i.0.1, i.1))
        (execute-Holding Rest (IsMarked db) (λ s e disk i. i) db statement
          (keeps.keeps_marker statement))

  pub run-Migrated : (statement : Statement) → Keeps (Migrated data_of d db) (run db statement main)
  unfolding run
  run-Migrated statement = execute-Migrated statement then λ _. pure-Triple tt (λ disk i. i)

  pub finish_v2_file-Triple :
      Triple
        (Migrated data_of d db)
        (finish_v2_file db)
        (λ _. Upgraded data_of d db)
        (Migrated data_of d db)
  unfolding finish_v2_file configure_file_connection
  finish_v2_file-Triple = dropping-Triple db main _ (execute-Migrated drop_connection) (
      (run-Migrated configure then λ _. run-Migrated switch_to_wal) then λ _.
      run-Migrated create_v2_schema then λ _.
      query-Triple db (has_exact_v2_schema db) main then λ exact.
      weaken-Triple _ (λ disk i. i) (λ _ disk i. i) (λ disk i. i.0)
        (require-Triple exact _ (λ disk i e. (i.0, sym i.1 ∙ e)))
      then λ _.
          held-Triple (restrict_database_permissions main) (λ disk i. i.0)
            (restrict_database_permissions-Keeps main))
