-- ===== src/Migration/Finish.antt =====
-- A recovery that is not disturbed is done.
use stateful_core.Base.{
  Text, Bool, true, false, not, trim, Option, none, some, [], ◌≡◌, refl, sym, ◌∙◌, subst, inl, inr,
}
use stateful_core.Migration.Disk.{
  Place, main, backup, manifest, manifest_tmp, candidate, recovery, restore, Suffix, plain, Node,
  regular, irregular, Disk, FileSet, put, Outcome, done, failed, killed, calm,
}
use stateful_core.Migration.Stage.{
  MigrationStage, backup_pending, backup_created, old_checkpointed, old_quarantined, new_validated,
  new_promoted, parent_synced, manifest_line, parse_stage,
}
use stateful_core.Migration.Sqlite.{Sqlite, node_of}
use stateful_core.Migration.Files.{remove_database_set, read_file}
use stateful_core.Migration.Manifest.{or_invalid, read_manifest, clear_manifest}
use stateful_core.Migration.Undo.{
  copy_backup, restore_backup_set, discard_attempt, recover_stage, recover_interrupted_migration,
}
use stateful_core.Migration.Triple.{Judged}
use stateful_core.Migration.Changes.{IsFound}
use stateful_core.Migration.Safe.{
  IsSound, StageIs, IsLater, HasSource, Untouched, Pending, BackedAt, Recoverable, Interrupted,
}
use stateful_core.Migration.Recover.{parsed_contents, recover_interrupted_migration-Untouched}
use stateful_core.Migration.Calm.{
  IsDone, Total, pure-Total, weaken-Total, ◌next◌, fail_if-Total, IsRegular, AllRegular,
  AllRegular-put,
}
use stateful_core.Migration.CalmFiles.{
  KeptAt, regular_file_exists-Total, idle-Total, sync_parent-Total, restrict_file_permissions-Total,
  remove_file_if_exists-Total, remove_database_set-Total, create_private_file-Total,
  write_from-Total, read_file-Total, rename-Total,
}

-- No file is irregular, and something holds of the disk.
abbrev With : (Disk → Type 0) → Disk → Type 0
With X disk = AllRegular disk × X disk

abbrev has_regular : (X : Disk → Type 0) (disk : Disk) → With X disk → AllRegular disk
has_regular X disk i = i.0

abbrev with_put :
    (X : Disk → Type 0) (p : Place)
    → ((s : Suffix) (content : Option Text) (disk : Disk)
        → X disk
        → X (put p s (node_of content) disk))
    → (s : Suffix) → KeptAt (With X) p s
with_put X p kept s content disk i = (AllRegular-put p s content disk i.0, kept s content disk i.1)

abbrev Anything : Disk → Type 0
Anything disk = Unit

module _ (X : Disk → Type 0) where
  remove_set :
      (p : Place)
      → ((s : Suffix) (content : Option Text) (disk : Disk)
          → X disk
          → X (put p s (node_of content) disk))
      → Total (With X) (remove_database_set p) (λ _. With X)
  remove_set p kept =
      weaken-Total (remove_database_set p) (λ disk i. i) (λ _ disk i. i.0)
        (remove_database_set-Total (has_regular X) p (with_put X p kept))

no_file : {n : Node} → ¬ (none ≡ some n)
no_file h = cc

-- Every stage but the first is recovered from the backup.
later_stage : (stage : MigrationStage) → IsLater stage → recover_stage stage ≡ restore_backup_set
unfolding recover_stage
later_stage backup_pending later = absurd (later refl)
later_stage backup_created later = refl
later_stage old_checkpointed later = refl
later_stage old_quarantined later = refl
later_stage new_validated later = refl
later_stage new_promoted later = refl
later_stage parent_synced later = refl

-- The manifest goes whatever else holds.
clear_manifest-Total : Total AllRegular clear_manifest (λ _. AllRegular)
unfolding clear_manifest
clear_manifest-Total =
    weaken-Total _ (λ disk i. i) (λ _ disk i. i.0)
      (remove_file_if_exists-Total (λ disk i. i) manifest plain (AllRegular-put manifest plain))
    next λ _.
        weaken-Total _ (λ disk i. i) (λ _ disk i. i.0)
          (remove_file_if_exists-Total (λ disk i. i) manifest_tmp plain
            (AllRegular-put manifest_tmp plain))
        next λ _. sync_parent-Total (λ disk i. i)

module _ (P : Disk → Type 0) (stage : MigrationStage) where
  or_invalid-Total :
      (content : Text)
      → ((disk : Disk) → P disk → StageIs stage disk)
      → Total
          (λ disk. P disk × (disk manifest plain ≡ some (regular content)))
          (or_invalid (parse_stage (trim content)))
          (λ s disk. P disk × (s ≡ stage))
  or_invalid-Total content says = record {
    runs = λ disk i.
        (subst (λ y. Total P (or_invalid y) (λ s disk. P disk × (s ≡ stage)))
            (sym (parsed_contents stage content (sym i.1 ∙ says disk i.0)))
            (pure-Total stage (λ disk i. (i, refl)))).runs
          disk i.0;
  }

  -- The stage is read, and its branch is run.
  recover-Total :
      ((disk : Disk) → P disk → AllRegular disk)
      → ((disk : Disk) → P disk → StageIs stage disk)
      → Total P (recover_stage stage) (λ _. AllRegular)
      → Total P recover_interrupted_migration (λ _. AllRegular)
  unfolding recover_interrupted_migration read_manifest
  recover-Total all_regular says t =
      (read_file-Total all_regular manifest plain (λ disk i. (manifest_line stage, says disk i))
        next λ content. or_invalid-Total content says)
      next λ s. record {
        runs = λ disk i.
            (subst (λ y. Total P (recover_stage y) (λ _. AllRegular)) (sym i.1) t).runs disk i.0;
      }

module _ {D : Type 0} (data_of : FileSet → Option D) (d : D) where
  module _ (x : MigrationStage × Text) where
    abbrev At : Disk → Type 0
    At = BackedAt data_of d x

    -- The copy is under way.
    abbrev Copying : Disk → Type 0
    Copying disk = With At disk × ((c : Text) × (disk restore plain ≡ some (regular c)))

    found_backup :
        (found : Bool) (disk : Disk)
        → IsFound found (disk backup plain)
        → At disk
        → not found ≡ false
    found_backup true disk f i = refl
    found_backup false disk f i = absurd (no_file (sym f ∙ i.1.0))

    restore_kept : KeptAt (With At) restore plain
    restore_kept = with_put At restore (λ s c disk i. i) plain

    copy_backup-Total : Total Copying copy_backup (λ _. Copying)
    unfolding copy_backup
    copy_backup-Total =
        weaken-Total (read_file backup plain) (λ disk i. i) (λ _ disk i. i.0)
          (read_file-Total (λ disk i. i.0.0) backup plain (λ disk i. (x.1, i.0.1.1.0)))
        next λ content. write_from-Total (has_regular At) restore plain restore_kept [] content

    restore_backup_set-Total : Total (With At) restore_backup_set (λ _. AllRegular)
    unfolding restore_backup_set
    restore_backup_set-Total = regular_file_exists-Total (has_regular At) backup plain next λ found.
        fail_if-Total (not found) _ (λ disk i. found_backup found disk i.1 i.0.1) next λ _.
        weaken-Total (remove_database_set main) (λ disk i. i.0) (λ _ disk i. i)
          (remove_set At main (λ s c disk i. i))
        next λ _. remove_set At candidate (λ s c disk i. i) next λ _.
            remove_set At recovery (λ s c disk i. i) next λ _.
            remove_database_set-Total (has_regular At) restore
              (with_put At restore (λ s c disk i. i))
            next λ _.
                weaken-Total _ (λ disk i. i) (λ _ disk i. (i.0, ([], i.1)))
                  (create_private_file-Total (has_regular At) restore restore_kept)
                next λ _. copy_backup-Total next λ _. idle-Total (λ disk i. i.0.0) next λ _.
                    restrict_file_permissions-Total (λ disk i. i.0.0) restore plain next λ _.
                    rename-Total {P = Copying} (λ disk i. i.0.0) {Q = AllRegular} restore main plain
                      (λ disk i. i.1)
                      (λ disk c i.
                        AllRegular-put restore plain none (put main plain (some (regular c)) disk)
                          (AllRegular-put main plain (some c) disk i.0.0))
                    next λ _. sync_parent-Total (λ disk i. i) next λ _. clear_manifest-Total

    recover_later-Total : IsLater x.0 → Total (With At) (recover_stage x.0) (λ _. AllRegular)
    recover_later-Total later =
        subst (λ m. Total (With At) m (λ _. AllRegular)) (sym (later_stage x.0 later))
          restore_backup_set-Total

  -- What a recovery starts from before the backup is complete.
  abbrev Source : Disk → Type 0
  Source disk = Pending data_of d disk × ((c : Text) × (disk main plain ≡ some (regular c)))

  found_main :
      (found : Bool) (disk : Disk)
      → IsFound found (disk main plain)
      → Source disk
      → not found ≡ false
  found_main true disk f i = refl
  found_main false disk f i = absurd (no_file (sym f ∙ i.1.1))

  discard_attempt-Total : Total (With Source) discard_attempt (λ _. AllRegular)
  unfolding discard_attempt
  discard_attempt-Total = regular_file_exists-Total (has_regular Source) main plain next λ found.
      fail_if-Total (not found) _ (λ disk i. found_main found disk i.1 i.0.1) next λ _.
      weaken-Total (remove_database_set candidate) (λ disk i. (i.0.0, tt)) (λ _ disk i. i)
        (remove_set Anything candidate (λ s c disk i. i))
      next λ _. remove_set Anything recovery (λ s c disk i. i) next λ _.
          remove_set Anything restore (λ s c disk i. i) next λ _.
          weaken-Total _ (λ disk i. i.0) (λ _ disk i. i.0)
            (remove_file_if_exists-Total (λ disk i. i) backup plain (AllRegular-put backup plain))
          next λ _. clear_manifest-Total

  -- What is done, and what holds if it is done.
  IsDone-Judged :
      {A : Type 0} (Q R : A → Disk → Type 0) (I : Disk → Type 0) (o : Outcome A)
      → IsDone Q o
      → Judged R I o
      → IsDone R o
  IsDone-Judged Q R I (done a disk fate) (e, q) r = (e, r)
  IsDone-Judged Q R I (failed _ _ _) h r = elim h [ ]
  IsDone-Judged Q R I (killed _) h r = elim h [ ]

  module _ (db : Sqlite) (sound : IsSound data_of db) where
    main_exists :
        (disk : Disk) (entry : Option Node)
        → disk main plain ≡ entry
        → IsRegular entry
        → HasSource data_of d disk
        → (c : Text) × (entry ≡ some (regular c))
    main_exists disk none e r h = absurd (no_data (sym (sound.needs_file (disk main) e) ∙ h))
      where
        no_data : ¬ (none ≡ some d)
        no_data x = cc
    main_exists disk (some (regular c)) e r h = (c, refl)
    main_exists disk (some irregular) e r h = elim r [ ]

    recover_interrupted_migration-IsDone :
        (disk : Disk)
        → Interrupted data_of d disk
        → AllRegular disk
        → IsDone (λ _. AllRegular) (recover_interrupted_migration disk calm)
    unfolding recover_stage
    recover_interrupted_migration-IsDone disk (inl p) r =
        (recover-Total (With Source) backup_pending (λ disk i. i.0) (λ disk i. i.1.0.0)
            discard_attempt-Total).runs
          disk (r, (p, main_exists disk (disk main plain) refl (r main plain) p.1))
    recover_interrupted_migration-IsDone disk (inr (x, later, b)) r =
        (recover-Total (With (At x)) x.0 (λ disk i. i.0) (λ disk i. i.1.0)
            (recover_later-Total x later)).runs
          disk (r, b)

    -- With an SQLite as `IsSound` says, and where no file is a link or no regular file, a
    -- recovery from an interrupted migration whose accesses all proceed comes to its end: the
    -- database holds the data and there is no manifest.
    pub recover_interrupted_migration-restores :
        (disk : Disk)
        → Interrupted data_of d disk
        → AllRegular disk
        → IsDone (λ _. Untouched data_of d) (recover_interrupted_migration disk calm)
    recover_interrupted_migration-restores disk i r =
        IsDone-Judged (λ _. AllRegular) (λ _. Untouched data_of d) (Recoverable data_of d)
          (recover_interrupted_migration disk calm) (recover_interrupted_migration-IsDone disk i r)
          (recover_interrupted_migration-Untouched data_of d disk calm i)
