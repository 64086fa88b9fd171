-- ===== src/Migration/Backup.antt =====
-- The steps of a migration until the backup is complete, and the writing of the manifest.
use stateful_core.Base.{
  Text, true, not, Option, none, some, List, [], ◌==◌, ◌≡◌, refl, sym, ap, ◌∙◌, subst, inl, inr,
}
use stateful_core.Migration.Disk.{
  Place, main, backup, manifest, manifest_tmp, Suffix, plain, regular, Disk, FileSet, put, Action,
  Done, effect,
}
use stateful_core.Migration.Stage.{MigrationStage, backup_pending, backup_created, manifest_line}
use stateful_core.Migration.Files.{
  restrict_file_permissions, sync_parent, sync_file, write_from, remove_file_if_exists,
  create_private_file,
}
use stateful_core.Migration.Sqlite.{
  Sqlite, Statement, begin_exclusive, count_master, commit, wal_checkpoint, close_connection,
  drop_connection, apply_changes, execute, dropping,
}
use stateful_core.Migration.Files.{regular_file_exists}
use stateful_core.Migration.Changes.{regular_file_exists-Triple, when-none}
use stateful_core.Migration.Run.{
  copy_database, create_backup, checkpoint, fail_if_requested, back_up_legacy, run,
}
use stateful_core.Migration.Manifest.{clear_manifest, restrict_if_regular, persist_manifest}
use stateful_core.Migration.Triple.{
  Triple, Keeps, pure-Triple, ◌then◌, effect-Triple, fail_if-Keeps, weaken-Triple, either-Triple,
}
use stateful_core.Migration.Keeps.{
  Ignores, idle-Keeps, sync_parent-Keeps, restrict_file_permissions-Keeps, restrict_if_exists-Keeps,
  sync_file-Keeps, remove_file_if_exists-Keeps, create_private_file-Keeps, execute-Keeps,
  dropping-Triple,
}
use stateful_core.Migration.Changes.{
  held-Triple, rename-Triple, write_from-Triple, create_private_file-Triple,
}
use stateful_core.Migration.Statements.{apply_changes-After, execute-Holding}
use stateful_core.Migration.Safe.{
  is_harmless, IsSound, HasSource, HasBackup, Untouched, Pending, Backed, Recoverable,
}

module _ {P : Disk → Type 0} where
  restrict_if_regular-Keeps : (p : Place) → Keeps P (restrict_if_regular p)
  unfolding restrict_if_regular
  restrict_if_regular-Keeps p = restrict_if_exists-Keeps p plain

module _ {P : Disk → Type 0} where
  -- The manifest is replaced in one step, the rename.
  pub persist_manifest-Triple :
      {I Q : Disk → Type 0} (stage : MigrationStage)
      → Ignores P manifest_tmp
      → ((disk : Disk) → P disk → I disk)
      → ((disk : Disk) → Q disk → I disk)
      → ((disk : Disk)
          → P disk
          → Q (
              put manifest_tmp plain none
                (put manifest plain (some (regular (manifest_line stage))) disk)))
      → Triple P (persist_manifest stage) (λ _. Q) I
  unfolding persist_manifest
  persist_manifest-Triple {I = I} {Q = Q} stage frame weak weak' step =
      held-Triple (remove_file_if_exists manifest_tmp plain) weak
        (remove_file_if_exists-Keeps manifest_tmp frame plain)
      then λ _.
          weaken-Triple (create_private_file manifest_tmp) (λ disk i. i) (λ _ disk i. i) weak
            (create_private_file-Triple manifest_tmp frame)
          then λ _.
              weaken-Triple (write_from manifest_tmp plain [] (manifest_line stage)) (λ disk i. i)
                (λ _ disk i. i) weak
                (write_from-Triple manifest_tmp plain frame [] (manifest_line stage))
              then λ _.
                  held-Triple (effect (λ disk. disk)) (λ disk i. weak disk i.0) idle-Keeps then λ _.
                  held-Triple (restrict_if_regular manifest) (λ disk i. weak disk i.0)
                    (restrict_if_regular-Keeps manifest)
                  then λ _.
                      rename-Triple manifest_tmp manifest plain (λ disk i. weak disk i.0)
                        (λ disk entry i e.
                          subst (λ x. Q (put manifest_tmp plain none (put manifest plain x disk)))
                            (sym i.1 ∙ e) (step disk i.0))
                      then λ _.
                          held-Triple (restrict_file_permissions manifest plain) weak'
                            (restrict_file_permissions-Keeps manifest plain)
                          then λ _. held-Triple sync_parent weak' sync_parent-Keeps

module _ {P I Q : Disk → Type 0} where
  -- The removal of the manifest is the step from `P` to `Q`.
  pub clear_manifest-Triple :
      ((disk : Disk) → P disk → I disk)
      → ((disk : Disk) → Q disk → I disk)
      → Ignores Q manifest_tmp
      → ((disk : Disk) → P disk → disk manifest plain ≡ none → Q disk)
      → ((disk : Disk) → P disk → Q (put manifest plain none disk))
      → Triple P clear_manifest (λ _. Q) I
  unfolding clear_manifest remove_file_if_exists
  clear_manifest-Triple weak weak' frame gone step =
      (weaken-Triple (regular_file_exists manifest plain) (λ disk i. i) (λ _ disk i. i) weak
          (regular_file_exists-Triple manifest plain)
        then λ found.
            when-none manifest plain (effect (put manifest plain none)) found gone
              (effect-Triple (put manifest plain none) weak step))
      then λ _.
          held-Triple (remove_file_if_exists manifest_tmp plain) weak'
            (remove_file_if_exists-Keeps manifest_tmp frame plain)
          then λ _. held-Triple sync_parent weak' sync_parent-Keeps

module _ {D : Type 0} (data_of : FileSet → Option D) (d : D) (db : Sqlite)
    (sound : IsSound data_of db) where
  -- The data is in the database, and something holds of the manifest and the backup.
  abbrev pub WithSource : (FileSet → FileSet → Type 0) → Disk → Type 0
  WithSource R disk = R (disk manifest) (disk backup) × HasSource data_of d disk

  -- A harmless statement on the old database.
  pub execute-Source :
      (R : FileSet → FileSet → Type 0) (statement : Statement)
      → is_harmless statement ≡ true
      → Keeps (WithSource R) (execute db statement main)
  execute-Source R statement h =
      execute-Holding (λ disk. R (disk manifest) (disk backup)) (λ t. data_of t ≡ some d)
        (λ s e disk i. i) db statement (λ set. sound.keeps_data statement set d h)

  pub run-Source :
      (R : FileSet → FileSet → Type 0) (statement : Statement)
      → is_harmless statement ≡ true
      → Keeps (WithSource R) (run db statement main)
  unfolding run
  run-Source R statement h = execute-Source R statement h then λ _. pure-Triple tt (λ disk i. i)

  -- The backup is complete, which the manifest does not say yet.
  abbrev Ready : Disk → Type 0
  Ready disk = Pending data_of d disk × ((c : Text) × HasBackup data_of d c disk)

  copy_database-Ready :
      (source : Disk)
      → HasSource data_of d source
      → Triple (Pending data_of d) (copy_database db source) (λ _. Ready) (Pending data_of d)
  unfolding copy_database
  copy_database-Ready source h = record {
    holds = λ disk fate i.
        (weaken-Triple (apply_changes backup changes) (λ disk' j. j)
            (λ _ disk' j.
              let copied = sound.copies_data (source main) (disk backup) d h in
              (j.0, (copied.0, (ap (λ set. set plain) j.1 ∙ copied.1, copied.2))))
            (λ disk' j. j)
            (apply_changes-After backup (λ s e disk' j. j) (disk backup) changes)).holds
          disk fate (i, refl);
  }
    where
      changes : List (Suffix × Option Text)
      changes = db.backup_changes (source main)

  create_backup-Triple :
      Triple (Pending data_of d) (create_backup db) (λ _. Ready) (Pending data_of d)
  unfolding create_backup
  create_backup-Triple = remove_file_if_exists-Keeps backup (λ s e disk i. i) plain then λ _.
      create_private_file-Keeps backup (λ s e disk i. i) then λ _.
      record { holds = λ disk fate i. (copy_database-Ready disk i.1).holds disk fate i } then λ _.
      held-Triple (restrict_file_permissions backup plain) (λ disk i. i.0)
        (restrict_file_permissions-Keeps backup plain)
      then λ _. held-Triple (sync_file backup plain) (λ disk i. i.0) (sync_file-Keeps backup plain)

  abbrev SaysPending : FileSet → FileSet → Type 0
  SaysPending x _ = x plain ≡ some (regular (manifest_line backup_pending))

  checkpoint-Source : (R : FileSet → FileSet → Type 0) → Keeps (WithSource R) (checkpoint db main)
  unfolding checkpoint
  checkpoint-Source R =
      execute-Source R wal_checkpoint refl then λ busy. fail_if-Keeps (not (busy == 0)) _

  run-Backed : (statement : Statement) → Keeps (Backed data_of d) (run db statement main)
  unfolding run
  run-Backed statement =
      execute-Keeps main (λ s e disk i. i) db statement then λ _. pure-Triple tt (λ disk i. i)

  checkpoint-Backed : Keeps (Backed data_of d) (checkpoint db main)
  unfolding checkpoint
  checkpoint-Backed = execute-Keeps main (λ s e disk i. i) db wal_checkpoint then λ busy.
      fail_if-Keeps (not (busy == 0)) _

  pub drop_connection-Recoverable : Keeps (Recoverable data_of d) (execute db drop_connection main)
  drop_connection-Recoverable =
      let m = execute db drop_connection main in
      either-Triple m
        (weaken-Triple m (λ disk i. i) (λ _ disk i. inl i) (λ disk i. inl i)
          (execute-Source (λ x _. x plain ≡ none) drop_connection refl))
        (either-Triple m
          (weaken-Triple m (λ disk i. i) (λ _ disk i. inr (inl i)) (λ disk i. inr (inl i))
            (execute-Source SaysPending drop_connection refl))
          (weaken-Triple m (λ disk i. i) (λ _ disk i. inr (inr i)) (λ disk i. inr (inr i))
            (execute-Keeps main (λ s e disk i. i) db drop_connection)))

  module _ (fault : Option Text) where
    fail_if_requested-Backed :
        (stage : MigrationStage) → Keeps (Backed data_of d) (fail_if_requested db fault stage)
    unfolding fail_if_requested
    fail_if_requested-Backed stage = fail_if-Keeps _ _

    -- Until the connection to the old database is closed.
    pub back_up_legacy-Triple :
        Triple
          (Untouched data_of d)
          (dropping db main (back_up_legacy db fault))
          (λ _. Backed data_of d)
          (Recoverable data_of d)
    unfolding back_up_legacy
    back_up_legacy-Triple =
        dropping-Triple db main (back_up_legacy db fault) drop_connection-Recoverable (
          persist_manifest-Triple {Q = Pending data_of d} backup_pending (λ s e disk i. i)
            (λ disk i. inl i) (λ disk i. inr (inl i)) (λ disk i. (refl, i.1))
          then λ _.
              pending (run db begin_exclusive main) (run-Source SaysPending begin_exclusive refl)
              then λ _.
                  pending (run db count_master main) (run-Source SaysPending count_master refl)
                  then λ _.
                      weaken-Triple (create_backup db) (λ disk i. i) (λ _ disk i. i)
                        (λ disk i. inr (inl i)) create_backup-Triple
                      then λ _.
                          persist_manifest-Triple {Q = Backed data_of d} backup_created
                            (λ s e disk i. i) (λ disk i. inr (inl i.0)) (λ disk i. inr (inr i))
                            (λ disk i. ((backup_created, i.1.0), (λ h. cc), (refl, i.1.1)))
                          then λ _.
                              backed (fail_if_requested db fault backup_created)
                                (fail_if_requested-Backed backup_created)
                              then λ _. backed (run db commit main) (run-Backed commit) then λ _.
                                  backed (checkpoint db main) checkpoint-Backed then λ _.
                                  backed (run db close_connection main)
                                    (run-Backed close_connection))
      where
        pending :
            (m : Action Done)
            → Keeps (Pending data_of d) m
            → Triple (Pending data_of d) m (λ _. Pending data_of d) (Recoverable data_of d)
        pending m h = held-Triple m (λ disk i. inr (inl i)) h

        backed :
            (m : Action Done)
            → Keeps (Backed data_of d) m
            → Triple (Backed data_of d) m (λ _. Backed data_of d) (Recoverable data_of d)
        backed m h = held-Triple m (λ disk i. inr (inr i)) h
