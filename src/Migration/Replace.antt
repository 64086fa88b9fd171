-- ===== src/Migration/Replace.antt =====
-- The steps of a migration after the old database is closed, until the manifest is cleared.
use stateful_core.Base.{
  Text, true, Option, none, some, List, [], ◌∷◌, ◌≡◌, refl, sym, ap, ◌∙◌, subst, inl, inr,
}
use stateful_core.Migration.Disk.{
  main, candidate, recovery, Suffix, plain, regular, Disk, FileSet, put, put_suffix, wal, shm,
  journal, Action, Done,
}
use stateful_core.Migration.Stage.{
  MigrationStage, old_checkpointed, old_quarantined, new_validated, new_promoted, parent_synced,
}
use stateful_core.Migration.Files.{
  restrict_file_permissions, sync_parent, remove_database_set, move_file_if_exists,
}
use stateful_core.Migration.Sqlite.{Sqlite, has_v2_marker}
use stateful_core.Migration.Run.{
  quarantine_old_set, create_candidate_v2, fail_if_requested, replace_legacy,
}
use stateful_core.Migration.Manifest.{persist_manifest, clear_manifest}
use stateful_core.Migration.Triple.{Triple, Keeps, ◌then◌, fail_if-Keeps, weaken-Triple}
use stateful_core.Migration.Keeps.{
  Ignores, sync_parent-Keeps, restrict_file_permissions-Keeps, remove_file_if_exists-Keeps,
  remove_database_set-Keeps,
}
use stateful_core.Migration.Changes.{
  held-Triple, when-none, regular_file_exists-Triple, Gone, Shrinks, Gone-put-none, sidecars-Gone,
  rename-Triple,
}
use mathlib.Core.Path.{fun_ext}
use stateful_core.Migration.Candidate.{create_candidate_v2-Triple}
use stateful_core.Migration.Safe.{
  Backed, KeepsMarker, IsMarked, Migrated, Preserved, IsLater, file_only,
}
use stateful_core.Migration.Backup.{persist_manifest-Triple, clear_manifest-Triple}

-- A file that is moved away is gone.
move_file_if_exists-Gone :
    (P : Disk → Type 0)
    → Shrinks P main
    → Ignores P recovery
    → (ss : List Suffix) (s : Suffix)
    → Triple
        (Gone P main ss)
        (move_file_if_exists main recovery s)
        (λ _. Gone P main (s ∷ ss))
        (Gone P main ss)
unfolding move_file_if_exists
move_file_if_exists-Gone P shrinks frame ss s = regular_file_exists-Triple main s then λ found.
    when-none main s _ found (λ disk g e. (g.0, (e, g.1)))
      (remove_file_if_exists-Keeps recovery (λ t e disk g. (frame t e disk g.0, g.1)) s then λ _.
        rename-Triple main recovery s (λ disk g. g)
          (λ disk entry g e.
            Gone-put-none P main shrinks s ss (put recovery s (some entry) disk)
              (frame s (some entry) disk g.0, g.1))
        then λ _.
            held-Triple (restrict_file_permissions recovery s) (λ disk g. (g.0, g.1.1))
              (restrict_file_permissions-Keeps recovery s))

quarantine_old_set-Gone :
    (P : Disk → Type 0)
    → Shrinks P main
    → Ignores P recovery
    → Triple P quarantine_old_set (λ _ disk. P disk × ((s : Suffix) → disk main s ≡ none)) P
unfolding quarantine_old_set
quarantine_old_set-Gone P shrinks frame =
    weaken-Triple (move_file_if_exists main recovery plain) (λ disk i. (i, tt)) (λ _ disk g. g)
      (λ disk g. g.0) (move_file_if_exists-Gone P shrinks frame [] plain)
    then λ _.
        sidecars-Gone P main (move_file_if_exists main recovery)
          (move_file_if_exists-Gone P shrinks frame)
        then λ _. held-Triple sync_parent (λ disk i. i.0) sync_parent-Keeps

module _ {D : Type 0} (data_of : FileSet → Option D) (d : D) (db : Sqlite)
    (keeps : KeepsMarker db) where
  -- The backup is complete, and something holds of the database and the candidate.
  abbrev BackedWith : (FileSet → FileSet → Type 0) → Disk → Type 0
  BackedWith X disk = Backed data_of d disk × X (disk main) (disk candidate)

  abbrev Anything : FileSet → FileSet → Type 0
  Anything x y = Unit

  abbrev MainIsGone : FileSet → FileSet → Type 0
  MainIsGone x y = (s : Suffix) → x s ≡ none

  abbrev HasCandidate : FileSet → FileSet → Type 0
  HasCandidate x y =
      ((s : Suffix) → x s ≡ none)
      × ((c : Text) × (y plain ≡ some (regular c)) × (has_v2_marker (db.view (file_only c)) ≡ true))

  -- The database is of version 2.
  abbrev IsReplaced : FileSet → FileSet → Type 0
  IsReplaced x y = IsMarked db x

  Backed-Preserved : (disk : Disk) → Backed data_of d disk → Preserved data_of d db disk
  Backed-Preserved disk i = inl (inr (inr i))

  module _ (X : FileSet → FileSet → Type 0) where
    held-Preserved :
        (m : Action Done)
        → Keeps (BackedWith X) m
        → Triple (BackedWith X) m (λ _. BackedWith X) (Preserved data_of d db)
    held-Preserved m h = held-Triple m (λ disk i. Backed-Preserved disk i.0) h

    persist_manifest-Preserved :
        (stage : MigrationStage)
        → IsLater stage
        → Triple
            (BackedWith X)
            (persist_manifest stage)
            (λ _. BackedWith X)
            (Preserved data_of d db)
    persist_manifest-Preserved stage later =
        persist_manifest-Triple stage (λ s e disk i. i) (λ disk i. Backed-Preserved disk i.0)
          (λ disk i. Backed-Preserved disk i.0)
          (λ disk i. (((stage, i.0.0.1), later, (refl, i.0.2.1)), i.1))

  clear_manifest-Migrated :
      Triple
        (BackedWith IsReplaced)
        clear_manifest
        (λ _. Migrated data_of d db)
        (Preserved data_of d db)
  clear_manifest-Migrated =
      clear_manifest-Triple (λ disk i. Backed-Preserved disk i.0) (λ disk i. inr i)
        (λ s e disk i. i) (λ disk i e. (e, (i.0.0.1, i.0.2.1), i.1))
        (λ disk i. (refl, (i.0.0.1, i.0.2.1), i.1))

  replaced :
      (x : FileSet) (c : Text)
      → ((s : Suffix) → x s ≡ none)
      → (s : Suffix) → put_suffix plain (some (regular c)) x s ≡ file_only c s
  replaced x c h plain = refl
  replaced x c h wal = h wal
  replaced x c h shm = h shm
  replaced x c h journal = h journal

  promoted-IsMarked :
      (x : FileSet) (c : Text)
      → ((s : Suffix) → x s ≡ none)
      → has_v2_marker (db.view (file_only c)) ≡ true
      → IsMarked db (put_suffix plain (some (regular c)) x)
  promoted-IsMarked x c gone m =
      (λ h. cc, ap (λ set. has_v2_marker (db.view set)) (fun_ext (replaced x c gone)) ∙ m)

  module _ (fault : Option Text) where
    fail_if_requested-Preserved :
        (X : FileSet → FileSet → Type 0) (stage : MigrationStage)
        → Triple
            (BackedWith X)
            (fail_if_requested db fault stage)
            (λ _. BackedWith X)
            (Preserved data_of d db)
    unfolding fail_if_requested
    fail_if_requested-Preserved X stage = held-Preserved X _ (fail_if-Keeps _ _)

    pub replace_legacy-Triple :
        Triple
          (Backed data_of d)
          (replace_legacy db fault)
          (λ _. Migrated data_of d db)
          (Preserved data_of d db)
    unfolding replace_legacy
    replace_legacy-Triple =
        weaken-Triple (persist_manifest old_checkpointed) (λ disk i. (i, tt)) (λ _ disk i. i)
          (λ disk i. i) (persist_manifest-Preserved Anything old_checkpointed (λ h. cc))
        then λ _. fail_if_requested-Preserved Anything old_checkpointed then λ _.
            weaken-Triple quarantine_old_set (λ disk i. i.0) (λ _ disk i. i) Backed-Preserved
              (quarantine_old_set-Gone (Backed data_of d) (λ s disk i. i) (λ s e disk i. i))
            then λ _. persist_manifest-Preserved MainIsGone old_quarantined (λ h. cc) then λ _.
                fail_if_requested-Preserved MainIsGone old_quarantined then λ _.
                weaken-Triple (create_candidate_v2 db) (λ disk i. i)
                  (λ _ disk i. (i.0.0, (i.0.1, i.1))) (λ disk i. Backed-Preserved disk i.0)
                  (create_candidate_v2-Triple db keeps {P = BackedWith MainIsGone}
                    (λ s e disk i. i))
                then λ _. persist_manifest-Preserved HasCandidate new_validated (λ h. cc) then λ _.
                    fail_if_requested-Preserved HasCandidate new_validated then λ _.
                    rename-Triple {Q = λ _. BackedWith IsReplaced} candidate main plain
                      (λ disk i. Backed-Preserved disk i.0)
                      (λ disk entry i e. (
                        i.0,
                        subst (λ x. IsMarked db (put_suffix plain x (disk main))) (sym i.1.1.1 ∙ e)
                            (promoted-IsMarked (disk main) i.1.1.0 i.1.0 i.1.1.2),
                      ))
                    then λ _. held-Preserved IsReplaced sync_parent sync_parent-Keeps then λ _.
                        persist_manifest-Preserved IsReplaced new_promoted (λ h. cc) then λ _.
                        fail_if_requested-Preserved IsReplaced new_promoted then λ _.
                        held-Preserved IsReplaced sync_parent sync_parent-Keeps then λ _.
                        persist_manifest-Preserved IsReplaced parent_synced (λ h. cc) then λ _.
                        fail_if_requested-Preserved IsReplaced parent_synced then λ _.
                        held-Preserved IsReplaced (remove_database_set recovery)
                          (remove_database_set-Keeps recovery (λ s e disk i. i))
                        then λ _. clear_manifest-Migrated
