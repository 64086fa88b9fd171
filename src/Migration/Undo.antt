-- ===== src/Migration/Undo.antt =====
-- crates/stateful-store/src/migration_v2.rs: what is done about a migration that was cut short.
use stateful_core.Base.{[], not}
use stateful_core.Migration.Disk.{
  main, backup, candidate, recovery, restore, plain, io, Action, Done, ◌>>=◌, ◌>>◌, effect, fail_if,
}
use stateful_core.Migration.Stage.{
  MigrationStage, backup_pending, backup_created, old_checkpointed, old_quarantined, new_validated,
  new_promoted, parent_synced,
}
use stateful_core.Migration.Files.{
  regular_file_exists, restrict_file_permissions, sync_parent, read_file, write_from,
  remove_file_if_exists, remove_database_set, create_private_file, rename,
}
use stateful_core.Migration.Manifest.{clear_manifest, read_manifest}

-- `io::copy` from the backup, once it is opened.
unfoldable pub copy_backup : Action Done
unfolding read_file write_from
copy_backup = read_file backup plain >>= write_from restore plain []

unfoldable pub restore_backup_set : Action Done
unfolding regular_file_exists remove_database_set create_private_file copy_backup
    restrict_file_permissions rename sync_parent clear_manifest
restore_backup_set = do
  found ← regular_file_exists backup plain
  fail_if (not found) (io "migration backup is missing; refusing mixed-generation recovery")
  remove_database_set main
  remove_database_set candidate
  remove_database_set recovery
  remove_database_set restore
  create_private_file restore
  copy_backup
  effect (λ disk. disk)
  restrict_file_permissions restore plain
  rename restore main plain
  sync_parent
  clear_manifest

-- The branch of a migration that was cut short before its backup was complete.
unfoldable pub discard_attempt : Action Done
unfolding regular_file_exists remove_database_set remove_file_if_exists clear_manifest
discard_attempt = do
  found ← regular_file_exists main plain
  fail_if (not found) (io "migration source disappeared before backup completed")
  remove_database_set candidate
  remove_database_set recovery
  remove_database_set restore
  remove_file_if_exists backup plain
  clear_manifest

unfoldable pub recover_stage : MigrationStage → Action Done
unfolding discard_attempt restore_backup_set
recover_stage backup_pending = discard_attempt
recover_stage backup_created = restore_backup_set
recover_stage old_checkpointed = restore_backup_set
recover_stage old_quarantined = restore_backup_set
recover_stage new_validated = restore_backup_set
recover_stage new_promoted = restore_backup_set
recover_stage parent_synced = restore_backup_set

unfoldable pub recover_interrupted_migration : Action Done
unfolding read_manifest recover_stage
recover_interrupted_migration = read_manifest >>= recover_stage
