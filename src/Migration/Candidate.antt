-- ===== src/Migration/Candidate.antt =====
-- `create_candidate_v2` of crates/stateful-store/src/migration_v2.rs, step by step: what the
-- candidate's files are.
use stateful_core.Base.{
  arith, ℕ, Text, Bool, true, false, not, none, some, ◌==◌, ◌≡◌, refl, sym, ap, ◌∙◌,
}
use stateful_core.Migration.Disk.{
  Place, candidate, Suffix, plain, wal, shm, journal, regular, Disk, FileSet, put, Error, ok,
  fail_if, for_each,
}
use stateful_core.Migration.Files.{remove_file_if_exists, remove_database_sidecars}
use stateful_core.Migration.Sqlite.{
  Sqlite, Statement, open_connection, configure, switch_to_wal, create_v2_schema, wal_checkpoint,
  close_connection, drop_connection, has_v2_marker,
}
use stateful_core.Migration.Run.{
  configure_file_connection, checkpoint, initialize_v2, create_candidate_v2, run,
}
use stateful_core.Migration.Triple.{
  Triple, Keeps, pure-Triple, raise-Triple, ◌then◌, effect-Triple, when-Keeps, weaken-Triple,
}
use stateful_core.Migration.Keeps.{
  Ignores, regular_file_exists-Keeps, restrict_file_permissions-Keeps, remove_database_set-Keeps,
  create_private_file-Keeps, execute-Keeps, dropping-Triple, query-Triple,
}
use stateful_core.Migration.Changes.{sync_file-Triple}
use stateful_core.Migration.Safe.{IsWhole, KeepsMarker, after_changes, file_only}
use stateful_core.Migration.Statements.{execute-After}

-- A test that must succeed.
pub require-Triple :
    {P Q : Disk → Type 0} (b : Bool) (e : Error)
    → ((disk : Disk) → P disk → b ≡ true → Q disk)
    → Triple P (fail_if (not b) e) (λ _. Q) P
unfolding fail_if
require-Triple true e h = pure-Triple tt (λ disk i. h disk i refl)
require-Triple false e h = raise-Triple e (λ disk i. i)

is_zero : (n : ℕ) → (n == 0) ≡ true → n ≡ 0
is_zero n h = ground arith

-- Only this file goes.
remove_file-Keeps :
    {P : Disk → Type 0} (p : Place) (s : Suffix)
    → ((disk : Disk) → P disk → P (put p s none disk))
    → Keeps P (remove_file_if_exists p s)
unfolding remove_file_if_exists
remove_file-Keeps p s step = regular_file_exists-Keeps p s then λ found.
    when-Keeps found (effect-Triple (put p s none) (λ disk i. i) step)

module _ (db : Sqlite) (keeps : KeepsMarker db) {P : Disk → Type 0}
    (frame : Ignores P candidate) where
  run-Candidate : (statement : Statement) → Keeps P (run db statement candidate)
  unfolding run
  run-Candidate statement =
      execute-Keeps candidate frame db statement then λ _. pure-Triple tt (λ disk i. i)

  abbrev Marked : FileSet → Type 0
  Marked set = has_v2_marker (db.view set) ≡ true

  -- The candidate needs no sidecar once its connection is closed.
  abbrev Checked : FileSet → Type 0
  Checked set = IsWhole db (after_changes set (db.run close_connection set).changes)

  abbrev Whole : Disk → Type 0
  Whole disk = P disk × IsWhole db (disk candidate)

  initialize_v2-Marked :
      Triple P (initialize_v2 db candidate) (λ _ disk. P disk × Marked (disk candidate)) P
  unfolding initialize_v2
  initialize_v2-Marked = run-Candidate create_v2_schema then λ _.
      query-Triple db has_v2_marker candidate then λ marked.
      weaken-Triple _ (λ disk i. i) (λ _ disk i. i) (λ disk i. i.0)
        (require-Triple marked _ (λ disk i e. (i.0, sym i.1 ∙ e)))

  checkpoint-Checked :
      Triple
        (λ disk. P disk × Marked (disk candidate))
        (checkpoint db candidate)
        (λ _ disk. P disk × Checked (disk candidate))
        P
  unfolding checkpoint
  checkpoint-Checked =
      execute-After frame db wal_checkpoint (λ busy set. busy ≡ 0 → Checked set)
        (λ set a m e z. keeps.checkpointed set m (e ∙ ap ok z))
      then λ busy.
          weaken-Triple _ (λ disk i. i) (λ _ disk i. i) (λ disk i. i.0)
            (require-Triple (busy == 0) _ (λ disk i e. (i.0, i.1 (is_zero busy e))))

  run-Whole :
      Triple
        (λ disk. P disk × Checked (disk candidate))
        (run db close_connection candidate)
        (λ _. Whole)
        P
  unfolding run
  run-Whole =
      execute-After frame db close_connection (λ _ set. IsWhole db set) (λ set a w e. w) then λ _.
      pure-Triple tt (λ disk i. i)

  remove_database_sidecars-Whole : Keeps Whole (remove_database_sidecars candidate)
  unfolding remove_database_sidecars for_each
  remove_database_sidecars-Whole =
      remove_file-Keeps candidate wal (λ disk i. (frame wal none disk i.0, i.1)) then λ _.
      remove_file-Keeps candidate shm (λ disk i. (frame shm none disk i.0, i.1)) then λ _.
      remove_file-Keeps candidate journal (λ disk i. (frame journal none disk i.0, i.1)) then λ _.
      pure-Triple tt (λ disk i. i)

  -- Only the files of the candidate change, and at the end its file alone is of version 2.
  pub create_candidate_v2-Triple :
      Triple P
        (create_candidate_v2 db)
        (λ _ disk.
          P disk
          × ((c : Text) × (disk candidate plain ≡ some (regular c))
              × (has_v2_marker (db.view (file_only c)) ≡ true)))
        P
  unfolding create_candidate_v2 configure_file_connection
  create_candidate_v2-Triple = remove_database_set-Keeps candidate frame then λ _.
      create_private_file-Keeps candidate frame then λ _. run-Candidate open_connection then λ _.
      dropping-Triple db candidate _ (execute-Keeps candidate frame db drop_connection) (
        (run-Candidate configure then λ _. run-Candidate switch_to_wal) then λ _.
        initialize_v2-Marked then λ _. checkpoint-Checked then λ _. run-Whole)
      then λ _.
          weaken-Triple _ (λ disk i. i) (λ _ disk i. (i.0.0, (i.1.0, i.1.1, i.0.1 i.1.0 i.1.1)))
            (λ disk i. i.0)
            (remove_database_sidecars-Whole then λ _.
              restrict_file_permissions-Keeps candidate plain then λ _.
              sync_file-Triple candidate plain)
