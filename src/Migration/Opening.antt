-- ===== src/Migration/Opening.antt =====
-- crates/stateful-store/src/migration_v2.rs: how a database file is opened, with the lock that
-- excludes other migrations. A connection that is returned is left open.
use stateful_core.Base.{Text, Bool, true, false, not, Option, List, [], ◌∷◌, if◌then◌else◌}
use stateful_core.Migration.Disk.{
  Place, main, backup, manifest, manifest_tmp, candidate, recovery, restore, lock, plain, sidecars,
  invalid_state, Action, Done, pure, raise, ◌>>=◌, ◌>>◌, for_each,
}
use stateful_core.Migration.Disk.{when}
use stateful_core.Migration.Files.{
  regular_file_exists, ensure_no_orphan_sidecars, restrict_if_exists, create_private_file,
  restrict_file_permissions,
}
use stateful_core.Migration.Sqlite.{
  Sqlite, open_connection, configure, begin_lock, close_connection, dropping, query, has_v2_marker,
  is_v2_database, is_empty_database,
}
use stateful_core.Migration.Layout.{has_legacy_layout}
use stateful_core.Migration.Undo.{recover_interrupted_migration}
use stateful_core.Migration.Run.{
  run, initialize_v2_file, create_new_v2, finish_v2_file, mixed_schema, migrate_legacy,
}

-- What is found in an existing file, in the order of the tests.
pub data FoundLayout : Type 0 where
  v2 mixed empty legacy unknown : FoundLayout

abbrev managed : List Place
managed = main ∷ backup ∷ manifest ∷ manifest_tmp ∷ candidate ∷ recovery ∷ restore ∷ lock ∷ []

-- `prepare_database_path`; the directory is there.
unfoldable pub prepare_database_path : Action Done
unfolding restrict_if_exists
prepare_database_path =
    for_each managed (λ p. restrict_if_exists p plain)
    >> for_each (main ∷ candidate ∷ recovery ∷ restore ∷ [])
        (λ p. for_each sidecars (restrict_if_exists p))

module _ (db : Sqlite) where
  -- `MigrationLock::acquire`.
  unfoldable pub acquire_lock : Action Done
  unfolding regular_file_exists create_private_file run restrict_file_permissions
  acquire_lock = do
    found ← regular_file_exists lock plain
    when (not found) (create_private_file lock)
    run db open_connection lock
    dropping db lock
        (do run db configure lock; run db begin_lock lock; restrict_file_permissions lock plain)

  unfoldable pub after_empty : Bool → Action FoundLayout
  after_empty true = pure empty
  after_empty false =
      query db has_legacy_layout main >>= λ is_legacy. pure (if is_legacy then legacy else unknown)

  unfoldable pub after_marker : Bool → Action FoundLayout
  unfolding after_empty
  after_marker true = pure mixed
  after_marker false = query db is_empty_database main >>= after_empty

  unfoldable pub after_v2 : Bool → Action FoundLayout
  unfolding after_marker
  after_v2 true = pure v2
  after_v2 false = query db has_v2_marker main >>= after_marker

  unfoldable pub find_layout : Action FoundLayout
  unfolding after_v2
  find_layout = query db (is_v2_database db) main >>= after_v2

  module _ (fault : Option Text) where
    unfoldable pub open_layout : FoundLayout → Action Done
    open_layout v2 = finish_v2_file db
    open_layout mixed = dropping db main (raise (mixed_schema db))
    open_layout empty = initialize_v2_file db
    open_layout legacy = migrate_legacy db fault
    open_layout unknown =
        dropping db main
          (raise (invalid_state "unknown nonempty database schema; refusing migration"))

    unfoldable pub open_existing : Action Done
    unfolding find_layout open_layout
    open_existing = do
      run db open_connection main
      layout ← dropping db main (run db configure main >> find_layout)
      open_layout layout

    unfoldable pub open_main : Bool → Action Done
    unfolding open_existing
    open_main true = open_existing
    open_main false = ensure_no_orphan_sidecars >> create_new_v2 db

    unfoldable pub open_locked : Action Done
    unfolding open_main
    open_locked = do
      found ← regular_file_exists manifest plain
      when found recover_interrupted_migration
      exists ← regular_file_exists main plain
      open_main exists

    -- `open_file` after the manifest was looked for without the lock.
    unfoldable pub open_unlocked_layout : Bool → Action Done
    unfolding acquire_lock open_locked
    open_unlocked_layout true = finish_v2_file db
    open_unlocked_layout false = do
      dropping db main (run db close_connection main)
      acquire_lock
      open_locked

    unfoldable pub open_unlocked : Bool → Action Done
    unfolding open_unlocked_layout
    open_unlocked false = ensure_no_orphan_sidecars >> create_new_v2 db
    open_unlocked true = do
      run db open_connection main
      current ← dropping db main (run db configure main >> query db (is_v2_database db) main)
      open_unlocked_layout current

    unfoldable pub open_without_manifest : Bool → Action Done
    unfolding acquire_lock open_locked open_unlocked
    open_without_manifest true = acquire_lock >> open_locked
    open_without_manifest false = regular_file_exists main plain >>= open_unlocked

    unfoldable pub open_file : Action Done
    unfolding prepare_database_path open_without_manifest
    open_file = do
      prepare_database_path
      found ← regular_file_exists manifest plain
      open_without_manifest found
