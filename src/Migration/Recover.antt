-- ===== src/Migration/Recover.antt =====
-- The recovery of a migration that was cut short, and the migration as a whole.
use stateful_core.Base.{
  Text, not, trim, Option, none, some, [], ◌≡◌, refl, sym, ap, ◌∙◌, subst, inl, inr,
}
use mathlib.Core.Path.{fun_ext}
use stateful_core.Migration.Disk.{
  main, backup, manifest, candidate, recovery, restore, Suffix, plain, wal, shm, journal, Node,
  regular, Disk, FileSet, put_suffix, Action, Done, Fate, fail_if,
}
use stateful_core.Migration.Stage.{
  MigrationStage, backup_pending, backup_created, old_checkpointed, old_quarantined, new_validated,
  new_promoted, parent_synced, manifest_line, parse_stage, parse_stage-manifest_line,
}
use stateful_core.Migration.Files.{sync_parent, read_file, write_from}
use stateful_core.Migration.Manifest.{or_invalid, read_manifest}
use stateful_core.Migration.Undo.{
  copy_backup, restore_backup_set, discard_attempt, recover_stage, recover_interrupted_migration,
}
use stateful_core.Migration.Triple.{
  Triple, Keeps, Judged, pure-Triple, ◌then◌, fail_if-Keeps, weaken-Triple,
}
use stateful_core.Migration.Keeps.{
  idle-Keeps, regular_file_exists-Keeps, sync_parent-Keeps, restrict_file_permissions-Keeps,
  remove_file_if_exists-Keeps, remove_database_set-Keeps,
}
use stateful_core.Migration.Changes.{
  held-Triple, remove_database_set-Gone, rename-Triple, read_file-Triple, write_from-Triple,
  create_private_file-Triple,
}
use stateful_core.Migration.Safe.{
  file_only, StageIs, IsLater, HasSource, HasBackup, Untouched, Pending, BackedAt, Recoverable,
  Interrupted,
}
use stateful_core.Migration.Backup.{clear_manifest-Triple}

contents : Option Node → Text
contents none = []
contents (some (regular c)) = c
contents (some _) = []

-- A manifest's contents are read as its stage.
pub parsed_contents :
    (stage : MigrationStage) (content : Text)
    → some (regular content) ≡ some (regular (manifest_line stage))
    → parse_stage (trim content) ≡ some stage
unfolding contents
parsed_contents stage content e =
    ap (λ x. parse_stage (trim (contents x))) e ∙ parse_stage-manifest_line stage

-- The contents with a stage are read as this stage.
or_invalid-Triple :
    (P : Disk → Type 0) (stage : MigrationStage) (content : Text)
    → Triple
        (λ disk. (P disk × StageIs stage disk) × (disk manifest plain ≡ some (regular content)))
        (or_invalid (parse_stage (trim content)))
        (λ s disk. (P disk × StageIs stage disk) × (s ≡ stage))
        (λ disk. P disk × StageIs stage disk)
or_invalid-Triple P stage content = record {
  holds = λ disk fate i.
      (subst
          (λ x.
            Triple (λ disk. P disk × StageIs stage disk) (or_invalid x)
              (λ s disk. (P disk × StageIs stage disk) × (s ≡ stage))
              (λ disk. P disk × StageIs stage disk))
          (sym (parsed_contents stage content (sym i.1 ∙ i.0.1)))
          (pure-Triple stage (λ disk i. (i, refl)))).holds
        disk fate i.0;
}

read_manifest-Triple :
    (P : Disk → Type 0) (stage : MigrationStage)
    → Triple
        (λ disk. P disk × StageIs stage disk)
        read_manifest
        (λ s disk. (P disk × StageIs stage disk) × (s ≡ stage))
        (λ disk. P disk × StageIs stage disk)
unfolding read_manifest
read_manifest-Triple P stage =
    read_file-Triple manifest plain then λ content. or_invalid-Triple P stage content

-- Recovery is what it is at the stage that the manifest names.
recover-Triple :
    (P I Q : Disk → Type 0) (stage : MigrationStage)
    → ((disk : Disk) → P disk × StageIs stage disk → I disk)
    → Triple (λ disk. P disk × StageIs stage disk) (recover_stage stage) (λ _. Q) I
    → Triple (λ disk. P disk × StageIs stage disk) recover_interrupted_migration (λ _. Q) I
unfolding recover_interrupted_migration
recover-Triple P I Q stage weak t =
    weaken-Triple read_manifest (λ disk i. i) (λ _ disk i. i) weak (read_manifest-Triple P stage)
    then λ s. record {
      holds = λ disk fate i.
          (subst (λ x. Triple (λ disk. P disk × StageIs stage disk) (recover_stage x) (λ _. Q) I)
              (sym i.1) t).holds
            disk fate i.0;
    }

module _ {D : Type 0} (data_of : FileSet → Option D) (d : D) where
  Pending-Recoverable : (disk : Disk) → Pending data_of d disk → Recoverable data_of d disk
  Pending-Recoverable disk i = inr (inl i)

  -- Before the backup is complete, the attempt is given up.
  discard_attempt-Triple :
      Triple (Pending data_of d) discard_attempt (λ _. Untouched data_of d) (Recoverable data_of d)
  unfolding discard_attempt
  discard_attempt-Triple =
      weaken-Triple _ (λ disk i. i) (λ _ disk i. i) Pending-Recoverable
        (regular_file_exists-Keeps main plain)
      then λ found. kept (fail_if (not found) _) (fail_if-Keeps (not found) _) then λ _.
          kept _ (remove_database_set-Keeps candidate (λ s e disk i. i)) then λ _.
          kept _ (remove_database_set-Keeps recovery (λ s e disk i. i)) then λ _.
          kept _ (remove_database_set-Keeps restore (λ s e disk i. i)) then λ _.
          kept _ (remove_file_if_exists-Keeps backup (λ s e disk i. i) plain) then λ _.
          clear_manifest-Triple Pending-Recoverable (λ disk i. inl i) (λ s e disk i. i)
            (λ disk i e. (e, i.1)) (λ disk i. (refl, i.1))
    where
      kept :
          (m : Action Done)
          → Keeps (Pending data_of d) m
          → Triple (Pending data_of d) m (λ _. Pending data_of d) (Recoverable data_of d)
      kept m h = held-Triple m Pending-Recoverable h

  module _ (x : MigrationStage × Text) (later : IsLater x.0) where
    backed-Recoverable : (disk : Disk) → BackedAt data_of d x disk → Recoverable data_of d disk
    backed-Recoverable disk i = inr (inr (x, later, i))

    -- The database and its sidecars are gone.
    abbrev Removed : Disk → Type 0
    Removed disk = BackedAt data_of d x disk × ((s : Suffix) → disk main s ≡ none)

    abbrev Copied : Disk → Type 0
    Copied disk = Removed disk × (disk restore plain ≡ some (regular x.1))

    abbrev Restored : Disk → Type 0
    Restored disk = BackedAt data_of d x disk × ((s : Suffix) → disk main s ≡ file_only x.1 s)

    copy_backup-Triple :
        Triple
          (λ disk. Removed disk × (disk restore plain ≡ some (regular [])))
          copy_backup
          (λ _. Copied)
          Removed
    unfolding copy_backup
    copy_backup-Triple =
        weaken-Triple (read_file backup plain) (λ disk i. i) (λ _ disk i. i) (λ disk i. i.0)
          (read_file-Triple backup plain)
        then λ content.
            weaken-Triple (write_from restore plain [] content) (λ disk i. ((i.0.0, i.1), i.0.1))
              (λ _ disk i. (i.0.0, i.1 ∙ sym i.0.1 ∙ i.0.0.0.1.0)) (λ disk i. i.0)
              (write_from-Triple
                {P = λ disk. Removed disk × (disk backup plain ≡ some (regular content))} restore
                plain (λ s e disk i. i) [] content)

    placed :
        (set : FileSet)
        → ((s : Suffix) → set s ≡ none)
        → (s : Suffix) → put_suffix plain (some (regular x.1)) set s ≡ file_only x.1 s
    placed set h plain = refl
    placed set h wal = h wal
    placed set h shm = h shm
    placed set h journal = h journal

    Restored-Untouched : (disk : Disk) → Restored disk → HasSource data_of d disk
    Restored-Untouched disk i = ap data_of (fun_ext i.1) ∙ i.0.1.1

    restore_backup_set-Triple :
        Triple
          (BackedAt data_of d x)
          restore_backup_set
          (λ _. Untouched data_of d)
          (Recoverable data_of d)
    unfolding restore_backup_set
    restore_backup_set-Triple =
        weaken-Triple _ (λ disk i. i) (λ _ disk i. i) backed-Recoverable
          (regular_file_exists-Keeps backup plain)
        then λ found. held-Triple _ backed-Recoverable (fail_if-Keeps (not found) _) then λ _.
            weaken-Triple _ (λ disk i. i) (λ _ disk i. i) backed-Recoverable
              (remove_database_set-Gone (BackedAt data_of d x) main (λ s disk i. i))
            then λ _. removed _ (remove_database_set-Keeps candidate (λ s e disk i. i)) then λ _.
                removed _ (remove_database_set-Keeps recovery (λ s e disk i. i)) then λ _.
                removed _ (remove_database_set-Keeps restore (λ s e disk i. i)) then λ _.
                weaken-Triple _ (λ disk i. i) (λ _ disk i. i)
                  (λ disk i. backed-Recoverable disk i.0)
                  (create_private_file-Triple restore (λ s e disk i. i))
                then λ _.
                    weaken-Triple copy_backup (λ disk i. i) (λ _ disk i. i)
                      (λ disk i. backed-Recoverable disk i.0) copy_backup-Triple
                    then λ _. copied _ idle-Keeps then λ _.
                        copied _ (restrict_file_permissions-Keeps restore plain) then λ _.
                        rename-Triple {Q = λ _. Restored} restore main plain
                          (λ disk i. backed-Recoverable disk i.0.0)
                          (λ disk entry i e. (
                            i.0.0,
                            λ s.
                                ap (λ y. put_suffix plain y (disk main) s) (sym e ∙ i.1)
                                ∙ placed (disk main) i.0.1 s,
                          ))
                        then λ _.
                            held-Triple sync_parent (λ disk i. backed-Recoverable disk i.0)
                              sync_parent-Keeps
                            then λ _.
                                clear_manifest-Triple (λ disk i. backed-Recoverable disk i.0)
                                  (λ disk i. inl i) (λ s e disk i. i)
                                  (λ disk i e. (e, Restored-Untouched disk i))
                                  (λ disk i. (refl, Restored-Untouched disk i))
      where
        removed :
            (m : Action Done)
            → Keeps Removed m
            → Triple Removed m (λ _. Removed) (Recoverable data_of d)
        removed m h = held-Triple m (λ disk i. backed-Recoverable disk i.0) h

        copied :
            (m : Action Done)
            → Keeps Copied m
            → Triple Copied m (λ _. Copied) (Recoverable data_of d)
        copied m h = held-Triple m (λ disk i. backed-Recoverable disk i.0.0) h

  recover_stage-Triple :
      (x : MigrationStage × Text)
      → IsLater x.0
      → Triple
          (BackedAt data_of d x)
          (recover_stage x.0)
          (λ _. Untouched data_of d)
          (Recoverable data_of d)
  unfolding recover_stage
  recover_stage-Triple (backup_pending, c) later = absurd (later refl)
  recover_stage-Triple (backup_created, c) later = restore_backup_set-Triple _ later
  recover_stage-Triple (old_checkpointed, c) later = restore_backup_set-Triple _ later
  recover_stage-Triple (old_quarantined, c) later = restore_backup_set-Triple _ later
  recover_stage-Triple (new_validated, c) later = restore_backup_set-Triple _ later
  recover_stage-Triple (new_promoted, c) later = restore_backup_set-Triple _ later
  recover_stage-Triple (parent_synced, c) later = restore_backup_set-Triple _ later

  recover-Pending-Triple :
      Triple
        (Pending data_of d)
        recover_interrupted_migration
        (λ _. Untouched data_of d)
        (Recoverable data_of d)
  unfolding recover_stage
  recover-Pending-Triple =
      weaken-Triple recover_interrupted_migration (λ disk i. (i.1, i.0)) (λ _ disk i. i)
        (λ disk i. i)
        (recover-Triple (HasSource data_of d) (Recoverable data_of d) (Untouched data_of d)
          backup_pending (λ disk i. inr (inl (i.1, i.0)))
          (weaken-Triple discard_attempt (λ disk i. (i.1, i.0)) (λ _ disk i. i) (λ disk i. i)
            discard_attempt-Triple))

  recover-Backed-Triple :
      (x : MigrationStage × Text)
      → IsLater x.0
      → Triple
          (BackedAt data_of d x)
          recover_interrupted_migration
          (λ _. Untouched data_of d)
          (Recoverable data_of d)
  recover-Backed-Triple x later =
      weaken-Triple recover_interrupted_migration (λ disk i. (i.1, i.0)) (λ _ disk i. i)
        (λ disk i. i)
        (recover-Triple (HasBackup data_of d x.1) (Recoverable data_of d) (Untouched data_of d) x.0
          (λ disk i. inr (inr (x, later, (i.1, i.0))))
          (weaken-Triple (recover_stage x.0) (λ disk i. (i.1, i.0)) (λ _ disk i. i) (λ disk i. i)
            (recover_stage-Triple x later)))

  pub recover_interrupted_migration-Triple :
      Triple
        (Interrupted data_of d)
        recover_interrupted_migration
        (λ _. Untouched data_of d)
        (Recoverable data_of d)
  recover_interrupted_migration-Triple = record {
    holds = λ disk fate i. elim i [
      | inl p ↦ recover-Pending-Triple.holds disk fate p
      | inr b ↦ (recover-Backed-Triple b.0 b.1).holds disk fate b.2
    ];
  }

  -- A recovery from an interrupted migration, with the data in the database while the manifest
  -- says that the backup is pending, or in the backup afterwards, leaves the database with the
  -- data and no manifest when it is done. However it is cut short, by a kill at any access, in
  -- the middle of a write, or by an error, another recovery can start from what it leaves, or it
  -- is over.
  pub recover_interrupted_migration-Untouched :
      (disk : Disk) (fate : Fate)
      → Interrupted data_of d disk
      → Judged
          (λ _. Untouched data_of d)
          (Recoverable data_of d)
          (recover_interrupted_migration disk fate)
  recover_interrupted_migration-Untouched disk fate i =
      recover_interrupted_migration-Triple.holds disk fate i
