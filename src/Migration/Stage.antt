-- ===== src/Migration/Stage.antt =====
-- crates/stateful-store/src/migration_v2.rs: the stages of a migration and their spelling in the
-- manifest.
use stateful_core.Base.{
  Text, text, text_eq, trim, ◌++◌, Option, none, some, ◌≡◌, refl, if◌then◌else◌,
}

pub data MigrationStage : Type 0 where
  backup_pending backup_created old_checkpointed old_quarantined new_validated new_promoted
        parent_synced :
      MigrationStage

unfoldable pub as_str : MigrationStage → Text
as_str backup_pending = text "backup_pending"
as_str backup_created = text "backup_created"
as_str old_checkpointed = text "old_checkpointed"
as_str old_quarantined = text "old_quarantined"
as_str new_validated = text "new_validated"
as_str new_promoted = text "new_promoted"
as_str parent_synced = text "parent_synced"

-- `MigrationStage::parse`.
unfoldable pub parse_stage : Text → Option MigrationStage
parse_stage t =
    if text_eq t (text "backup_pending")
    then some backup_pending
    else if text_eq t (text "backup_created")
    then some backup_created
    else if text_eq t (text "old_checkpointed")
    then some old_checkpointed
    else if text_eq t (text "old_quarantined")
    then some old_quarantined
    else if text_eq t (text "new_validated")
    then some new_validated
    else if text_eq t (text "new_promoted")
    then some new_promoted
    else if text_eq t (text "parent_synced")
    then some parent_synced
    else none

-- The contents of a manifest: the stage and a line end.
unfoldable pub manifest_line : MigrationStage → Text
unfolding as_str
manifest_line stage = as_str stage ++ text "\n"

-- What `persist_manifest` writes is read back as the same stage.
pub parse_stage-manifest_line :
    (stage : MigrationStage) → parse_stage (trim (manifest_line stage)) ≡ some stage
unfolding parse_stage manifest_line trim text_eq
parse_stage-manifest_line backup_pending = refl
parse_stage-manifest_line backup_created = refl
parse_stage-manifest_line old_checkpointed = refl
parse_stage-manifest_line old_quarantined = refl
parse_stage-manifest_line new_validated = refl
parse_stage-manifest_line new_promoted = refl
parse_stage-manifest_line parent_synced = refl
