-- ===== src/Migration/Open.antt =====
-- The migration as a whole, and the opening of a database under the lock.
use stateful_core.Base.{Text, Bool, true, false, Option, none, some, ◌≡◌, refl, sym, ◌∙◌, inl, inr}
use stateful_core.Migration.Disk.{main, manifest, plain, Disk, FileSet, Action, Done, Fate}
use stateful_core.Migration.Sqlite.{Sqlite, open_connection, configure, drop_connection, execute}
use stateful_core.Migration.Run.{finish_v2_file, migrate_legacy, run}
use stateful_core.Migration.Triple.{Triple, Keeps, Judged, pure-Triple, ◌then◌, weaken-Triple}
use stateful_core.Migration.Keeps.{dropping-Triple}
use stateful_core.Migration.Changes.{held-Triple}
use stateful_core.Migration.Opening.{
  FoundLayout, v2, mixed, empty, legacy, unknown, find_layout, open_layout, open_existing,
  open_main, open_locked,
}
use stateful_core.Base.{if◌then◌else◌}
use stateful_core.Migration.Safe.{
  IsLegacy, IsSound, KeepsMarker, Untouched, Recoverable, Upgraded, Preserved,
}
use stateful_core.Migration.Backup.{back_up_legacy-Triple, run-Source, drop_connection-Recoverable}
use stateful_core.Migration.Recover.{recover_interrupted_migration-Triple}
use stateful_core.Migration.Undo.{recover_interrupted_migration}
use stateful_core.Migration.Disk.{when}
use stateful_core.Migration.Triple.{either-Triple, raise-Triple}
use stateful_core.Migration.Changes.{IsFound, regular_file_exists-Found}
use stateful_core.Migration.Safe.{Interrupted}
use stateful_core.Migration.Replace.{replace_legacy-Triple}
use stateful_core.Migration.Upgrade.{execute-Migrated, run-Migrated, finish_v2_file-Triple}
use stateful_core.Migration.OldLayout.{IsOld, OldAt, find_layout-Old}

module _ {D : Type 0} (data_of : FileSet → Option D) (d : D) (db : Sqlite)
    (sound : IsSound data_of db) (keeps : KeepsMarker db) (fault : Option Text) where
  pub migrate_legacy-Triple :
      Triple
        (Untouched data_of d)
        (migrate_legacy db fault)
        (λ _. Upgraded data_of d db)
        (Preserved data_of d db)
  unfolding migrate_legacy
  migrate_legacy-Triple =
      weaken-Triple _ (λ disk i. i) (λ _ disk i. i) (λ disk i. inl i)
        (back_up_legacy-Triple data_of d db sound fault)
      then λ _. replace_legacy-Triple data_of d db keeps fault then λ _.
          held-Triple (run db open_connection main) (λ disk i. inr i)
            (run-Migrated data_of d db keeps open_connection)
          then λ _.
              weaken-Triple (finish_v2_file db) (λ disk i. i) (λ _ disk i. i) (λ disk i. inr i)
                (finish_v2_file-Triple data_of d db keeps)

  -- With an SQLite as `IsSound` and `KeepsMarker` say, a database with data is migrated, where no
  -- manifest is there. When the migration is done, there is no manifest, the backup holds the data,
  -- and the database's file is there with the marker and the exact schema of version 2. However it is cut short, by a kill
  -- at any access, in the middle of a write or of SQLite's work, or by an error, the disk is in
  -- one of four states: no manifest, and the database holds the data; a manifest of the pending
  -- stage, and the database holds the data; a manifest of a later stage, and the backup holds the
  -- data; no manifest, the database's file is there with the marker of version 2, and the backup
  -- holds the data.
  pub migrate_legacy-Preserved :
      (disk : Disk) (fate : Fate)
      → Untouched data_of d disk
      → Judged
          (λ _. Upgraded data_of d db)
          (Preserved data_of d db)
          (migrate_legacy db fault disk fate)
  migrate_legacy-Preserved disk fate i = migrate_legacy-Triple.holds disk fate i

some_file : {A : Type 0} {a : A} → ¬ (none ≡ some a)
some_file h = cc

module _ {D : Type 0} (data_of : FileSet → Option D) (d : D) (db : Sqlite)
    (sound : IsSound data_of db) (keeps : KeepsMarker db) (is_old : IsLegacy data_of db d) where
  abbrev NoManifest : FileSet → FileSet → Type 0
  NoManifest x _ = x plain ≡ none

  module _ (fault : Option Text) where
    Untouched-Preserved : (disk : Disk) → Untouched data_of d disk → Preserved data_of d db disk
    Untouched-Preserved disk i = inl (inl i)

    drop_connection-Preserved : Keeps (Preserved data_of d db) (execute db drop_connection main)
    drop_connection-Preserved =
        let m = execute db drop_connection main in
        either-Triple m
          (weaken-Triple m (λ disk i. i) (λ _ disk i. inl i) (λ disk i. inl i)
            (drop_connection-Recoverable data_of d db sound))
          (weaken-Triple m (λ disk i. i) (λ _ disk i. inr i) (λ disk i. inr i)
            (execute-Migrated data_of d db keeps drop_connection))

    never :
        {I : Disk → Type 0} {Q : Done → Disk → Type 0} (layout : FoundLayout) (m : Action Done)
        → ¬ IsOld data_of d db is_old layout
        → Triple (OldAt data_of d db is_old layout) m Q I
    never layout m not_old = record { holds = λ disk fate i. absurd (not_old i.1) }

    open_layout-Old :
        (layout : FoundLayout)
        → Triple
            (OldAt data_of d db is_old layout)
            (open_layout db fault layout)
            (λ _. Upgraded data_of d db)
            (Preserved data_of d db)
    unfolding open_layout
    open_layout-Old v2 = never v2 _ (λ h. elim h [ inl e ↦ cc | inr e ↦ cc ])
    open_layout-Old mixed = never mixed _ (λ h. elim h [ inl e ↦ cc | inr e ↦ cc ])
    open_layout-Old empty = never empty _ (λ h. elim h [ inl e ↦ cc | inr e ↦ cc ])
    open_layout-Old legacy =
        weaken-Triple (migrate_legacy db fault) (λ disk i. i.0) (λ _ disk i. i) (λ disk i. i)
          (migrate_legacy-Triple data_of d db sound keeps fault)
    open_layout-Old unknown =
        dropping-Triple db main _ drop_connection-Preserved
          (raise-Triple _ (λ disk i. Untouched-Preserved disk i.0))

    open_existing-Preserved :
        Triple
          (Untouched data_of d)
          (open_existing db fault)
          (λ _. Upgraded data_of d db)
          (Preserved data_of d db)
    unfolding open_existing
    open_existing-Preserved =
        held-Triple (run db open_connection main) Untouched-Preserved
          (run-Source data_of d db sound NoManifest open_connection refl)
        then λ _.
            dropping-Triple db main _ drop_connection-Preserved (
              held-Triple (run db configure main) Untouched-Preserved
                (run-Source data_of d db sound NoManifest configure refl)
              then λ _.
                  weaken-Triple (find_layout db) (λ disk i. i) (λ _ disk i. i) Untouched-Preserved
                    (find_layout-Old data_of d db is_old))
            then λ layout. open_layout-Old layout

    open_main-Preserved :
        (found : Bool)
        → Triple
            (λ disk. Untouched data_of d disk × IsFound found (disk main plain))
            (open_main db fault found)
            (λ _. Upgraded data_of d db)
            (Preserved data_of d db)
    unfolding open_main
    open_main-Preserved true =
        weaken-Triple (open_existing db fault) (λ disk i. i.0) (λ _ disk i. i) (λ disk i. i)
          open_existing-Preserved
    open_main-Preserved false = record {
      holds = λ disk fate i. absurd (some_file (sym (sound.needs_file (disk main) i.1) ∙ i.0.1));
    }

    recover_if-Triple :
        (found : Bool)
        → Triple
            (λ disk. Recoverable data_of d disk × IsFound found (disk manifest plain))
            (when found recover_interrupted_migration)
            (λ _. Untouched data_of d)
            (Preserved data_of d db)
    unfolding when
    recover_if-Triple true =
        weaken-Triple recover_interrupted_migration interrupted (λ _ disk i. i) (λ disk i. inl i)
          (recover_interrupted_migration-Triple data_of d)
      where
        interrupted :
            (disk : Disk)
            → Recoverable data_of d disk × IsFound true (disk manifest plain)
            → Interrupted data_of d disk
        interrupted disk (inl u, (c, e)) = absurd (some_file (sym u.0 ∙ e))
        interrupted disk (inr i, (c, e)) = i
    recover_if-Triple false = pure-Triple tt untouched
      where
        untouched :
            (disk : Disk)
            → Recoverable data_of d disk × IsFound false (disk manifest plain)
            → Untouched data_of d disk
        untouched disk (inl u, e) = u
        untouched disk (inr (inl i), e) = absurd (some_file (sym e ∙ i.0))
        untouched disk (inr (inr i), e) = absurd (some_file (sym e ∙ i.2.0))

    open_locked-Triple :
        Triple
          (Recoverable data_of d)
          (open_locked db fault)
          (λ _. Upgraded data_of d db)
          (Preserved data_of d db)
    unfolding open_locked
    open_locked-Triple =
        weaken-Triple _ (λ disk i. i) (λ _ disk i. i) (λ disk i. inl i)
          (regular_file_exists-Found manifest plain)
        then λ found. recover_if-Triple found then λ _.
            weaken-Triple _ (λ disk i. i) (λ _ disk i. i) Untouched-Preserved
              (regular_file_exists-Found main plain)
            then λ found. open_main-Preserved found

    -- With an SQLite as `IsSound` and `KeepsMarker` say and the data of an old database
    -- (`IsLegacy`), `open_locked` is run on a disk that interrupted migrations and recoveries can
    -- leave: nothing has begun, or the backup is pending, or it is complete (`Recoverable`). When
    -- it is done, there is no manifest, the old data is in the backup, and the database's file is
    -- there with the marker and the exact schema of version 2. However it is cut short, its disk
    -- is again one that the next opening can start from, or there is no manifest, the database's
    -- file is there with the marker of version 2, and the backup holds the old data.
    pub open_locked-Preserved :
        (disk : Disk) (fate : Fate)
        → Recoverable data_of d disk
        → Judged
            (λ _. Upgraded data_of d db)
            (Preserved data_of d db)
            (open_locked db fault disk fate)
    open_locked-Preserved disk fate i = open_locked-Triple.holds disk fate i
