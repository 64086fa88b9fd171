-- ===== src/Migration/Safe.antt =====
-- The states that a killed or failed migration leaves, for one old database, and what is taken for granted of
-- SQLite.
use stateful_core.Base.{Text, Bool, true, false, Option, none, some, List, [], ◌∷◌, ◌≡◌, ◌≢◌, ◌⊎◌}
use stateful_core.Migration.Disk.{
  main, backup, manifest, Suffix, plain, wal, shm, journal, regular, Disk, FileSet, put_suffix, ok,
}
use stateful_core.Migration.Stage.{MigrationStage, backup_pending, manifest_line}
use stateful_core.Migration.Sqlite.{
  is_v2_database, has_exact_v2_schema, has_v2_marker, is_empty_database, Sqlite, Statement,
  open_connection, configure, switch_to_wal, begin_exclusive, count_master, commit, wal_checkpoint,
  create_v2_schema, begin_lock, close_connection, drop_connection, node_of,
}

-- A file without sidecars.
abbrev pub file_only : Text → FileSet
file_only content plain = some (regular content)
file_only content wal = none
file_only content shm = none
file_only content journal = none

-- Whether a statement leaves the data alone: all do but the one that creates the schema.
abbrev pub is_harmless : Statement → Bool
is_harmless create_v2_schema = false
is_harmless open_connection = true
is_harmless configure = true
is_harmless switch_to_wal = true
is_harmless begin_exclusive = true
is_harmless count_master = true
is_harmless commit = true
is_harmless wal_checkpoint = true
is_harmless begin_lock = true
is_harmless close_connection = true
is_harmless drop_connection = true

-- A predicate holds of the files of a database after each of the changes.
abbrev pub AfterEach : (FileSet → Type 0) → FileSet → List (Suffix × Option Text) → Type 0
AfterEach S set [] = Unit
AfterEach S set ((s, content) ∷ changes) =
    S (put_suffix s (node_of content) set)
    × AfterEach S (put_suffix s (node_of content) set) changes

-- The files of a database after all of the changes.
abbrev pub after_changes : FileSet → List (Suffix × Option Text) → FileSet
after_changes set [] = set
after_changes set ((s, content) ∷ changes) =
    after_changes (put_suffix s (node_of content) set) changes

-- What is taken for granted of SQLite, with `data_of` for the data that it reads from a set of files: a
-- statement that changes no data may be cut short at any point, as SQLite's transactions promise, and when a
-- backup is complete its main file alone holds the same data.
pub record IsSound {D : Type 0} (data_of : FileSet → Option D) (db : Sqlite) : Type 0 where
  pub keeps_data :
      (statement : Statement) (set : FileSet) (d : D)
      → is_harmless statement ≡ true
      → data_of set ≡ some d
      → AfterEach (λ t. data_of t ≡ some d) set (db.run statement set).changes
  pub copies_data :
      (set target : FileSet) (d : D)
      → data_of set ≡ some d
      → (c : Text) × (after_changes target (db.backup_changes set) plain ≡ some (regular c))
        × (data_of (file_only c) ≡ some d)
  pub needs_file : (set : FileSet) → set plain ≡ none → data_of set ≡ none

-- The files of a database of version 2: its main file is there, and the marker is read from them.
abbrev pub IsMarked : Sqlite → FileSet → Type 0
IsMarked db set = (set plain ≢ none) × (has_v2_marker (db.view set) ≡ true)

-- The marker is read from the file without its sidecars.
abbrev pub IsWhole : Sqlite → FileSet → Type 0
IsWhole db set =
    (c : Text) → set plain ≡ some (regular c) → has_v2_marker (db.view (file_only c)) ≡ true

-- What is taken for granted of SQLite where a database of version 2 is concerned: no statement that the code
-- runs on it takes the marker away, at whatever point it is cut short; and after a checkpoint of the log that
-- found the database free, and the close that follows it, the file needs no sidecar.
pub record KeepsMarker (db : Sqlite) : Type 0 where
  pub keeps_marker :
      (statement : Statement) (set : FileSet)
      → IsMarked db set
      → AfterEach (IsMarked db) set (db.run statement set).changes
  pub checkpointed :
      (set : FileSet)
      → has_v2_marker (db.view set) ≡ true
      → (db.run wal_checkpoint set).answer ≡ ok 0
      → let checked = after_changes set (db.run wal_checkpoint set).changes in
        IsWhole db (after_changes checked (db.run close_connection checked).changes)

-- The data is that of an old database: where it is read, the tests of `open_locked` find no sign of version 2,
-- nor an empty database.
pub record IsLegacy {D : Type 0} (data_of : FileSet → Option D) (db : Sqlite) (d : D) : Type 0 where
  pub not_v2 : (set : FileSet) → data_of set ≡ some d → is_v2_database db (db.view set) ≡ false
  pub not_marked : (set : FileSet) → data_of set ≡ some d → has_v2_marker (db.view set) ≡ false
  pub not_empty : (set : FileSet) → data_of set ≡ some d → is_empty_database (db.view set) ≡ false

-- The stage in the manifest.
abbrev pub StageIs : MigrationStage → Disk → Type 0
StageIs stage disk = disk manifest plain ≡ some (regular (manifest_line stage))

abbrev pub IsLater : MigrationStage → Type 0
IsLater stage = stage ≢ backup_pending

module _ {D : Type 0} (data_of : FileSet → Option D) (d : D) where
  abbrev pub HasSource : Disk → Type 0
  HasSource disk = data_of (disk main) ≡ some d

  abbrev pub HasBackup : Text → Disk → Type 0
  HasBackup c disk = (disk backup plain ≡ some (regular c)) × (data_of (file_only c) ≡ some d)

  -- No migration is under way, and the database holds the data.
  abbrev pub Untouched : Disk → Type 0
  Untouched disk = (disk manifest plain ≡ none) × HasSource disk

  -- The backup is not complete, and the database holds the data.
  abbrev pub Pending : Disk → Type 0
  Pending disk = StageIs backup_pending disk × HasSource disk

  -- The manifest says that the backup is complete, and it is.
  abbrev pub BackedAt : MigrationStage × Text → Disk → Type 0
  BackedAt (stage, c) disk = StageIs stage disk × HasBackup c disk

  abbrev pub Backed : Disk → Type 0
  Backed disk = (x : MigrationStage × Text) × IsLater x.0 × BackedAt x disk

  -- What a recovery can start from, and what it leaves.
  abbrev pub Recoverable : Disk → Type 0
  Recoverable disk = Untouched disk ⊎ (Pending disk ⊎ Backed disk)

  abbrev pub Interrupted : Disk → Type 0
  Interrupted disk = Pending disk ⊎ Backed disk

  module _ (db : Sqlite) where
    -- No migration is under way, the database is one of version 2, and the backup holds the old data.
    abbrev pub Migrated : Disk → Type 0
    Migrated disk =
        (disk manifest plain ≡ none) × ((c : Text) × HasBackup c disk) × IsMarked db (disk main)

    -- Moreover its schema is exactly that of version 2.
    abbrev pub Upgraded : Disk → Type 0
    Upgraded disk = Migrated disk × (has_exact_v2_schema db (db.view (disk main)) ≡ true)

    -- What a migration or an opening leaves, however it ends.
    abbrev pub Preserved : Disk → Type 0
    Preserved disk = Recoverable disk ⊎ Migrated disk
