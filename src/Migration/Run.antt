-- ===== src/Migration/Run.antt =====
-- crates/stateful-store/src/migration_v2.rs: the steps of a migration. `fault` is the environment variable `STATEFUL_MIGRATION_FAIL_AT`.
use stateful_core.Base.{Text, text_eq, Bool, false, Option, none, some, not, ◌==◌}
use stateful_core.Migration.Disk.{
  Place, main, backup, candidate, recovery, plain, sidecars, Disk, Error, io, invalid_state, Action,
  Done, pure, ◌>>=◌, ◌>>◌, fail_if, for_each,
}
use stateful_core.Migration.Stage.{
  MigrationStage, backup_pending, backup_created, old_checkpointed, old_quarantined, new_validated,
  new_promoted, parent_synced, as_str,
}
use stateful_core.Migration.Files.{
  restrict_file_permissions, sync_parent, sync_file, remove_file_if_exists,
  remove_database_sidecars, remove_database_set, create_private_file, rename, move_file_if_exists,
  restrict_database_permissions,
}
use stateful_core.Migration.Sqlite.{
  Sqlite, Statement, open_connection, configure, switch_to_wal, begin_exclusive, count_master,
  commit, wal_checkpoint, create_v2_schema, close_connection, apply_changes, execute, dropping,
  query, has_v2_marker, has_exact_v2_schema,
}
use stateful_core.Migration.Manifest.{persist_manifest, clear_manifest}

unfoldable pub quarantine_old_set : Action Done
unfolding move_file_if_exists sync_parent
quarantine_old_set = do
  move_file_if_exists main recovery plain
  for_each sidecars (move_file_if_exists main recovery)
  sync_parent

abbrev pub equal_option : Option Text → Text → Bool
equal_option none t = false
equal_option (some s) t = text_eq s t

module _ (db : Sqlite) where
  unfoldable pub run : Statement → Place → Action Done
  unfolding execute
  run statement p = execute db statement p >>= λ _. pure tt

  unfoldable pub configure_file_connection : Place → Action Done
  configure_file_connection p = run configure p >> run switch_to_wal p

  unfoldable pub checkpoint : Place → Action Done
  checkpoint p = do
    busy ← execute db wal_checkpoint p
    fail_if (not (busy == 0)) (io "database remained busy during WAL checkpoint")

  unfoldable pub copy_database : Disk → Action Done
  unfolding apply_changes
  copy_database source = apply_changes backup (db.backup_changes (source main))

  unfoldable pub create_backup : Action Done
  unfolding remove_file_if_exists create_private_file copy_database restrict_file_permissions
      sync_file
  create_backup = do
    remove_file_if_exists backup plain
    create_private_file backup
    λ disk. copy_database disk disk
    restrict_file_permissions backup plain
    sync_file backup plain

  unfoldable pub initialize_v2 : Place → Action Done
  unfolding query
  initialize_v2 p = do
    run create_v2_schema p
    marked ← query db has_v2_marker p
    fail_if (not marked) (io "v2 schema marker was not created")

  unfoldable pub create_candidate_v2 : Action Done
  unfolding remove_database_set create_private_file dropping configure_file_connection initialize_v2
      checkpoint remove_database_sidecars restrict_file_permissions sync_file
  create_candidate_v2 = do
    remove_database_set candidate
    create_private_file candidate
    run open_connection candidate
    dropping db candidate (do
      configure_file_connection candidate
      initialize_v2 candidate
      checkpoint candidate
      run close_connection candidate)
    remove_database_sidecars candidate
    restrict_file_permissions candidate plain
    sync_file candidate plain

  unfoldable pub initialize_v2_file : Action Done
  unfolding dropping configure_file_connection initialize_v2 restrict_database_permissions
  initialize_v2_file =
      dropping db main
        (do configure_file_connection main; initialize_v2 main; restrict_database_permissions main)

  unfoldable pub create_new_v2 : Action Done
  unfolding create_private_file initialize_v2_file
  create_new_v2 = do create_private_file main; run open_connection main; initialize_v2_file

  abbrev pub mixed_schema : Error
  mixed_schema =
      invalid_state
        "stale or mixed stateful.v2 schema; remove the database after preserving its backup"

  unfoldable pub finish_v2_file : Action Done
  unfolding dropping configure_file_connection query has_exact_v2_schema
      restrict_database_permissions
  finish_v2_file = dropping db main (do
    configure_file_connection main
    run create_v2_schema main
    exact ← query db (has_exact_v2_schema db) main
    fail_if (not exact) mixed_schema
    restrict_database_permissions main)

  module _ (fault : Option Text) where
    unfoldable pub fail_if_requested : MigrationStage → Action Done
    unfolding as_str
    fail_if_requested stage =
        fail_if (equal_option fault (as_str stage)) (io "migration fault injected")

    -- The part of `migrate_legacy` that holds the connection to the old database.
    unfoldable pub back_up_legacy : Action Done
    unfolding persist_manifest create_backup checkpoint fail_if_requested
    back_up_legacy = do
      persist_manifest backup_pending
      run begin_exclusive main
      run count_master main
      create_backup
      persist_manifest backup_created
      fail_if_requested backup_created
      run commit main
      checkpoint main
      run close_connection main

    -- The stages after the old database is closed, until the manifest is cleared.
    unfoldable pub replace_legacy : Action Done
    unfolding persist_manifest fail_if_requested quarantine_old_set create_candidate_v2 rename
        sync_parent remove_database_set clear_manifest
    replace_legacy = do
      persist_manifest old_checkpointed
      fail_if_requested old_checkpointed
      quarantine_old_set
      persist_manifest old_quarantined
      fail_if_requested old_quarantined
      create_candidate_v2
      persist_manifest new_validated
      fail_if_requested new_validated
      rename candidate main plain
      sync_parent
      persist_manifest new_promoted
      fail_if_requested new_promoted
      sync_parent
      persist_manifest parent_synced
      fail_if_requested parent_synced
      remove_database_set recovery
      clear_manifest

    unfoldable pub migrate_legacy : Action Done
    unfolding dropping back_up_legacy replace_legacy finish_v2_file
    migrate_legacy = do
      dropping db main back_up_legacy
      replace_legacy
      run open_connection main
      finish_v2_file
