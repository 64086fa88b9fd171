-- ===== src/Examples/Migrations.antt =====
-- Concrete migrations: a database whose data is its file's contents, disks before and in the middle of a
-- migration, and what happens to them.
use stateful_core.Base.{
  Text, text, text_eq, true, false, Option, none, some, List, [], ◌∷◌, map, ◌≡◌, refl, inr,
  if◌then◌else◌,
}
use stateful_core.Migration.Disk.{
  main, backup, manifest, recovery, plain, journal, Node, regular, irregular, Disk, FileSet, put,
  put_suffix, ok, Fate, calm, stop, proceed, Outcome, done, failed, killed,
}
use stateful_core.Migration.Stage.{parse_stage-manifest_line, old_quarantined, manifest_line}
use stateful_core.Migration.Sqlite.{
  SchemaObject, View, Statement, open_connection, configure, switch_to_wal, begin_exclusive,
  count_master, commit, wal_checkpoint, create_v2_schema, begin_lock, close_connection,
  drop_connection, Reply, Sqlite, is_v2_database, has_v2_marker, is_empty_database,
  has_exact_v2_schema, is_agent_slot_index_upgrade,
}
use stateful_core.Migration.Layout.{expected_objects, expected_tables}
use stateful_core.Migration.LegacySchema.{LegacyColumn}
use stateful_core.Migration.Safe.{
  is_harmless, AfterEach, IsSound, IsLegacy, Untouched, Recoverable, Interrupted,
}
use stateful_core.Migration.Calm.{AllRegular, AllRegular-put, IsDone}
use stateful_core.Migration.Triple.{Judged}
use stateful_core.Base.{sym, ◌∙◌, trim, is_whitespace, insert_by, ap, sort_by, text_le}
use stateful_core.Migration.Sqlite.{is_table, table_has_column}
use stateful_core.Migration.Safe.{Upgraded, Preserved, KeepsMarker, IsMarked}
use stateful_core.Migration.Run.{migrate_legacy}
use stateful_core.Migration.Undo.{recover_interrupted_migration}
use stateful_core.Migration.Opening.{open_locked}
use stateful_core.Migration.Open.{migrate_legacy-Preserved, open_locked-Preserved}
use stateful_core.Migration.Recover.{recover_interrupted_migration-Untouched}
use stateful_core.Migration.LegacyMarker.{has_legacy_layout-unmarked}
use stateful_core.Migration.Finish.{recover_interrupted_migration-restores}
use stateful_core.Migration.Disk.{access, pure, raise, ◌>>=◌, effect, when, fail_if, for_each}
use stateful_core.Migration.Stage.{as_str, parse_stage}
use stateful_core.Migration.Files.{
  regular_file_exists, restrict_file_permissions, sync_parent, read_file, sync_file, write_from,
  remove_file_if_exists, remove_database_sidecars, remove_database_set, create_private_file, rename,
  move_file_if_exists, ensure_no_orphan_sidecars, restrict_if_exists, restrict_database_permissions,
}
use stateful_core.Migration.LegacySchema.{
  legacy_schema, legacy_human_observations_schema, legacy_write_fences_schema, legacy_indexes,
  legacy_human_observations_indexes, legacy_write_fences_indexes,
}
use stateful_core.Migration.Sqlite.{apply_changes, execute_reply, execute, dropping, query}
use stateful_core.Migration.Layout.{
  has_column_shape, user_schema_objects, has_legacy_marker, has_legacy_tables, has_legacy_layout,
}
use stateful_core.Migration.Manifest.{
  restrict_if_regular, persist_manifest, clear_manifest, read_manifest,
}
use stateful_core.Migration.Undo.{copy_backup, restore_backup_set, discard_attempt, recover_stage}
use stateful_core.Migration.Run.{
  quarantine_old_set, run, configure_file_connection, checkpoint, copy_database, create_backup,
  initialize_v2, create_candidate_v2, initialize_v2_file, create_new_v2, finish_v2_file,
  fail_if_requested, back_up_legacy, replace_legacy,
}
use stateful_core.Migration.Opening.{
  prepare_database_path, acquire_lock, after_empty, after_marker, after_v2, find_layout,
  open_layout, open_existing, open_main, open_unlocked_layout, open_unlocked, open_without_manifest,
  open_file,
}
use stateful_core.Migration.Disk.{Done}

abbrev content_of : Option Node → Option Text
content_of none = none
content_of (some (regular c)) = some c
content_of (some irregular) = none

abbrev contents_of : FileSet → Option Text
contents_of set = content_of (set plain)

abbrev new_schema : List SchemaObject
new_schema =
    record {
      kind = text "table";
      name = text "schema_migrations";
      tbl_name = text "schema_migrations";
      sql = [];
    }
    ∷ []

abbrev version_column : List LegacyColumn
version_column =
    record { name = text "version"; sql_type = text "TEXT"; not_null = false; primary_key = true }
    ∷ []

abbrev new_view : View
new_view = record {
  schema_objects = new_schema;
  master_rows = 1;
  table_columns = λ _. version_column;
  versions = text "stateful.v2.lease1" ∷ [];
  has_slot_duplicates = false;
}

abbrev columns_in : List (Text × List LegacyColumn) → Text → List LegacyColumn
columns_in [] t = []
columns_in ((name, columns) ∷ tables) t =
    let rest = columns_in tables t in if text_eq name t then columns else rest

unfoldable old_view : View
unfolding expected_objects expected_tables
old_view = record {
  schema_objects =
      map (λ o. record { kind = o.0; name = o.1; tbl_name = o.1; sql = [] })
        (expected_objects false false);
  master_rows = 30;
  table_columns = columns_in (expected_tables false false);
  versions = text "stateful.v1.initial" ∷ [];
  has_slot_duplicates = false;
}

abbrev empty_view : View
empty_view = record {
  schema_objects = [];
  master_rows = 0;
  table_columns = λ _. [];
  versions = [];
  has_slot_duplicates = false;
}

unfoldable view_of : Option Text → View
unfolding old_view
view_of none = empty_view
view_of (some c) =
    if text_eq c (text "new")
    then new_view
    else if text_eq c (text "old")
    then old_view
    else empty_view

abbrev reply_to : Statement → FileSet → Reply
reply_to create_v2_schema set = record { changes = (plain, some (text "new")) ∷ []; answer = ok 0 }
reply_to _ set = record { changes = []; answer = ok 0 }

abbrev copied : Option Text → Text
copied none = []
copied (some c) = c

unfoldable toy : Sqlite
unfolding view_of
toy = record {
  run = reply_to;
  view = λ set. view_of (contents_of set);
  backup_changes = λ set.
      (journal, some [])
      ∷ (plain, some (text "o"))
      ∷ (plain, some (copied (contents_of set)))
      ∷ (journal, none)
      ∷ [];
  v2_schema = new_schema;
}

toy_keeps :
    (statement : Statement) (set : FileSet) (d : Text)
    → is_harmless statement ≡ true
    → contents_of set ≡ some d
    → AfterEach (λ t. contents_of t ≡ some d) set (reply_to statement set).changes
toy_keeps open_connection set d h e = tt
toy_keeps configure set d h e = tt
toy_keeps switch_to_wal set d h e = tt
toy_keeps begin_exclusive set d h e = tt
toy_keeps count_master set d h e = tt
toy_keeps commit set d h e = tt
toy_keeps wal_checkpoint set d h e = tt
toy_keeps create_v2_schema set d h e = cc
toy_keeps begin_lock set d h e = tt
toy_keeps close_connection set d h e = tt
toy_keeps drop_connection set d h e = tt

toy-IsSound : IsSound contents_of toy
unfolding toy
toy-IsSound = record {
  keeps_data = toy_keeps;
  copies_data = λ set target d e. (d, ap (λ c. some (regular (copied c))) e, refl);
  needs_file = λ set e. ap content_of e;
}

abbrev Marked : FileSet → Type 0
Marked = IsMarked toy

new-Marked : (set : FileSet) → Marked (put_suffix plain (some (regular (text "new"))) set)
unfolding toy view_of text_eq has_v2_marker is_table table_has_column
new-Marked set = ((λ h. cc), refl)

toy_marker :
    (statement : Statement) (set : FileSet)
    → Marked set
    → AfterEach Marked set (reply_to statement set).changes
toy_marker open_connection set h = tt
toy_marker configure set h = tt
toy_marker switch_to_wal set h = tt
toy_marker begin_exclusive set h = tt
toy_marker count_master set h = tt
toy_marker commit set h = tt
toy_marker wal_checkpoint set h = tt
toy_marker create_v2_schema set h = (new-Marked set, tt)
toy_marker begin_lock set h = tt
toy_marker close_connection set h = tt
toy_marker drop_connection set h = tt

toy-KeepsMarker : KeepsMarker toy
unfolding toy
toy-KeepsMarker = record {
  keeps_marker = toy_marker;
  checkpointed = λ set h a c e. ap (λ x. has_v2_marker (view_of (content_of x))) (sym e) ∙ h;
}

toy-IsLegacy : IsLegacy contents_of toy (text "old")
unfolding toy view_of old_view text_eq is_v2_database has_v2_marker is_empty_database is_table
    table_has_column expected_objects expected_tables sort_by text_le
toy-IsLegacy = record {
  not_v2 = λ set e. ap (λ c. is_v2_database toy (view_of c)) e;
  not_marked = λ set e. ap (λ c. has_v2_marker (view_of c)) e;
  not_empty = λ set e. ap (λ c. is_empty_database (view_of c)) e;
}

abbrev no_files : Disk
no_files p s = none

-- An old database that nothing was done to, and one whose migration was cut short after it was set aside.
abbrev old_disk : Disk
old_disk = put main plain (some (regular (text "old"))) no_files

abbrev set_aside_disk : Disk
set_aside_disk = put manifest plain (some (regular (manifest_line old_quarantined))) (
    put backup plain (some (regular (text "old")))
      (put recovery plain (some (regular (text "old"))) no_files))

old_Untouched : Untouched contents_of (text "old") old_disk
old_Untouched = (refl, refl)

set_aside_Interrupted : Interrupted contents_of (text "old") set_aside_disk
set_aside_Interrupted = inr ((old_quarantined, text "old"), (λ h. cc), (refl, (refl, refl)))

set_aside_AllRegular : AllRegular set_aside_disk
set_aside_AllRegular = AllRegular-put manifest plain (some (manifest_line old_quarantined)) _ (
    AllRegular-put backup plain (some (text "old")) _
      (AllRegular-put recovery plain (some (text "old")) no_files (λ p s. tt)))

-- A kill after five accesses.
abbrev killed_soon : Fate
killed_soon = proceed (proceed (proceed (proceed (proceed stop))))

migrate_legacy-Preserved_example :
    Judged
      (λ _. Upgraded contents_of (text "old") toy)
      (Preserved contents_of (text "old") toy)
      (migrate_legacy toy none old_disk killed_soon)
migrate_legacy-Preserved_example =
    migrate_legacy-Preserved contents_of (text "old") toy toy-IsSound toy-KeepsMarker none old_disk
      killed_soon old_Untouched

open_locked-Preserved_example :
    Judged
      (λ _. Upgraded contents_of (text "old") toy)
      (Preserved contents_of (text "old") toy)
      (open_locked toy none set_aside_disk calm)
open_locked-Preserved_example =
    open_locked-Preserved contents_of (text "old") toy toy-IsSound toy-KeepsMarker toy-IsLegacy none
      set_aside_disk calm (inr set_aside_Interrupted)

recover_interrupted_migration-Untouched_example :
    Judged
      (λ _. Untouched contents_of (text "old"))
      (Recoverable contents_of (text "old"))
      (recover_interrupted_migration set_aside_disk killed_soon)
recover_interrupted_migration-Untouched_example =
    recover_interrupted_migration-Untouched contents_of (text "old") set_aside_disk killed_soon
      set_aside_Interrupted

recover_interrupted_migration-restores_example :
    IsDone
      (λ _. Untouched contents_of (text "old"))
      (recover_interrupted_migration set_aside_disk calm)
recover_interrupted_migration-restores_example =
    recover_interrupted_migration-restores contents_of (text "old") toy toy-IsSound set_aside_disk
      set_aside_Interrupted set_aside_AllRegular

abbrev files_after : Outcome Done → Option (Option Node × Option Node × Option Node)
files_after (done _ disk _) = some (disk main plain, disk manifest plain, disk backup plain)
files_after (failed _ _ _) = none
files_after (killed _) = none

-- An opening of the database that was set aside restores it, and then migrates it.
opened_again :
    files_after (open_file toy none set_aside_disk calm)
    ≡ some (some (regular (text "new")), none, some (regular (text "old")))
unfolding toy view_of old_view trim is_whitespace text_eq sort_by insert_by text_le access pure
    raise ◌>>=◌ effect when fail_if for_each as_str parse_stage manifest_line regular_file_exists
    restrict_file_permissions sync_parent read_file sync_file write_from remove_file_if_exists
    remove_database_sidecars remove_database_set create_private_file rename move_file_if_exists
    ensure_no_orphan_sidecars restrict_if_exists restrict_database_permissions legacy_schema
    legacy_human_observations_schema legacy_write_fences_schema legacy_indexes
    legacy_human_observations_indexes legacy_write_fences_indexes apply_changes execute_reply
    execute dropping query is_table table_has_column has_v2_marker has_exact_v2_schema
    is_agent_slot_index_upgrade is_v2_database is_empty_database has_column_shape
    user_schema_objects has_legacy_marker expected_objects expected_tables has_legacy_tables
    has_legacy_layout restrict_if_regular persist_manifest clear_manifest read_manifest copy_backup
    restore_backup_set discard_attempt recover_stage recover_interrupted_migration
    quarantine_old_set run configure_file_connection checkpoint copy_database create_backup
    initialize_v2 create_candidate_v2 initialize_v2_file create_new_v2 finish_v2_file
    fail_if_requested back_up_legacy replace_legacy migrate_legacy prepare_database_path
    acquire_lock after_empty after_marker after_v2 find_layout open_layout open_existing open_main
    open_locked open_unlocked_layout open_unlocked open_without_manifest open_file
opened_again = refl

parse_stage-manifest_line_example :
    parse_stage (trim (manifest_line old_quarantined)) ≡ some old_quarantined
parse_stage-manifest_line_example = parse_stage-manifest_line old_quarantined

old_view_accepted : has_legacy_layout old_view ≡ true
unfolding old_view text_eq text_le sort_by insert_by is_table table_has_column has_column_shape
    user_schema_objects has_legacy_marker has_legacy_tables has_legacy_layout expected_objects
    expected_tables legacy_schema legacy_indexes
old_view_accepted = refl

has_legacy_layout-unmarked_example : has_v2_marker old_view ≡ false
has_legacy_layout-unmarked_example = has_legacy_layout-unmarked old_view old_view_accepted
