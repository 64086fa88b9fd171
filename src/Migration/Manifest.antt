-- ===== src/Migration/Manifest.antt =====
-- crates/stateful-store/src/migration_v2.rs: the manifest, which says how far a migration has come.
use stateful_core.Base.{trim, Option, none, some, []}
use stateful_core.Migration.Disk.{
  Place, manifest, manifest_tmp, plain, io, Action, Done, pure, raise, ◌>>=◌, ◌>>◌, effect,
}
use stateful_core.Migration.Stage.{MigrationStage, parse_stage, manifest_line}
use stateful_core.Migration.Files.{
  restrict_file_permissions, sync_parent, read_file, write_from, remove_file_if_exists,
  create_private_file, rename, restrict_if_exists,
}

unfoldable pub restrict_if_regular : Place → Action Done
restrict_if_regular p = restrict_if_exists p plain

unfoldable pub persist_manifest : MigrationStage → Action Done
unfolding remove_file_if_exists create_private_file write_from manifest_line restrict_if_regular
    rename restrict_file_permissions sync_parent
persist_manifest stage = do
  remove_file_if_exists manifest_tmp plain
  create_private_file manifest_tmp
  write_from manifest_tmp plain [] (manifest_line stage)
  effect (λ disk. disk)
  restrict_if_regular manifest
  rename manifest_tmp manifest plain
  restrict_file_permissions manifest plain
  sync_parent

unfoldable pub clear_manifest : Action Done
unfolding remove_file_if_exists sync_parent
clear_manifest = do
  remove_file_if_exists manifest plain
  remove_file_if_exists manifest_tmp plain
  sync_parent

abbrev pub or_invalid : Option MigrationStage → Action MigrationStage
or_invalid none = raise (io "invalid migration manifest")
or_invalid (some stage) = pure stage

unfoldable pub read_manifest : Action MigrationStage
unfolding read_file parse_stage
read_manifest = read_file manifest plain >>= λ contents. or_invalid (parse_stage (trim contents))
