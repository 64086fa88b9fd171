-- ===== src/Migration/LegacySchema.antt =====
-- crates/stateful-store/src/migration_v2.rs: the schema of the databases before version 2, from
-- which alone a migration starts.
use stateful_core.Base.{Text, text, String, Bool, true, false, List, [], ◌∷◌}

pub record LegacyColumn : Type 0 where
  pub name : Text
  pub sql_type : Text
  pub not_null : Bool
  pub primary_key : Bool

-- A table's name and its columns.
abbrev pub LegacyTable : Type 0
LegacyTable = Text × List LegacyColumn

abbrev pub legacy_column : String → String → Bool → Bool → LegacyColumn
legacy_column name sql_type not_null primary_key = record {
  name = text name;
  sql_type = text sql_type;
  not_null = not_null;
  primary_key = primary_key;
}

unfoldable pub legacy_schema : List LegacyTable
legacy_schema =
    (
      text "activities",
      legacy_column "activity_id" "TEXT" false true
          ∷ legacy_column "agent_id" "TEXT" true false
          ∷ legacy_column "workspace_id" "TEXT" true false
          ∷ legacy_column "phase" "TEXT" true false
          ∷ legacy_column "expires_at" "TEXT" false false
          ∷ [],
    )
    ∷ (
      text "agents",
      legacy_column "agent_id" "TEXT" false true
          ∷ legacy_column "workspace_id" "TEXT" true false
          ∷ legacy_column "updated_at" "TEXT" true false
          ∷ [],
    )
    ∷ (
      text "claims",
      legacy_column "claim_id" "TEXT" false true
          ∷ legacy_column "reservation_id" "TEXT" false false
          ∷ legacy_column "agent_id" "TEXT" false false
          ∷ legacy_column "workspace_id" "TEXT" true false
          ∷ legacy_column "repo_id" "TEXT" false false
          ∷ legacy_column "relative_path" "TEXT" false false
          ∷ legacy_column "absolute_path" "TEXT" false false
          ∷ legacy_column "purpose" "TEXT" false false
          ∷ legacy_column "action" "TEXT" true false
          ∷ legacy_column "status" "TEXT" true false
          ∷ legacy_column "expires_at" "TEXT" false false
          ∷ legacy_column "observed_exists" "INTEGER" false false
          ∷ legacy_column "observed_content_hash" "TEXT" false false
          ∷ [],
    )
    ∷ (
      text "events",
      legacy_column "event_id" "TEXT" false true
          ∷ legacy_column "event_type" "TEXT" true false
          ∷ legacy_column "agent_id" "TEXT" true false
          ∷ legacy_column "workspace_id" "TEXT" true false
          ∷ legacy_column "sequence" "INTEGER" false false
          ∷ legacy_column "repo_id" "TEXT" false false
          ∷ legacy_column "worktree_id" "TEXT" false false
          ∷ legacy_column "root" "TEXT" false false
          ∷ legacy_column "branch" "TEXT" false false
          ∷ legacy_column "payload_json" "TEXT" true false
          ∷ legacy_column "created_at" "TEXT" true false
          ∷ [],
    )
    ∷ (
      text "notifications",
      legacy_column "notification_id" "TEXT" false true
          ∷ legacy_column "sequence" "INTEGER" true false
          ∷ legacy_column "target_agent_id" "TEXT" true false
          ∷ legacy_column "workspace_id" "TEXT" true false
          ∷ legacy_column "kind" "TEXT" true false
          ∷ legacy_column "payload_json" "TEXT" true false
          ∷ legacy_column "status" "TEXT" true false
          ∷ legacy_column "created_at" "TEXT" true false
          ∷ legacy_column "expires_at" "TEXT" false false
          ∷ [],
    )
    ∷ (
      text "outbox",
      legacy_column "outbox_id" "TEXT" false true
          ∷ legacy_column "agent_id" "TEXT" true false
          ∷ legacy_column "workspace_id" "TEXT" true false
          ∷ legacy_column "sequence" "INTEGER" true false
          ∷ legacy_column "event_type" "TEXT" true false
          ∷ legacy_column "payload_json" "TEXT" true false
          ∷ legacy_column "sync_status" "TEXT" true false
          ∷ [],
    )
    ∷ (
      text "reservations",
      legacy_column "reservation_id" "TEXT" false true
          ∷ legacy_column "agent_id" "TEXT" true false
          ∷ legacy_column "workspace_id" "TEXT" true false
          ∷ legacy_column "purpose" "TEXT" true false
          ∷ legacy_column "scopes_json" "TEXT" true false
          ∷ legacy_column "status" "TEXT" true false
          ∷ legacy_column "declared_at" "TEXT" true false
          ∷ legacy_column "expires_at" "TEXT" false false
          ∷ [],
    )
    ∷ (
      text "schema_migrations",
      legacy_column "version" "TEXT" false true ∷ legacy_column "applied_at" "TEXT" true false ∷ [],
    )
    ∷ (
      text "wait_queue",
      legacy_column "wait_id" "TEXT" false true
          ∷ legacy_column "request_id" "TEXT" false false
          ∷ legacy_column "agent_id" "TEXT" true false
          ∷ legacy_column "workspace_id" "TEXT" true false
          ∷ legacy_column "repo_id" "TEXT" false false
          ∷ legacy_column "worktree_id" "TEXT" false false
          ∷ legacy_column "root" "TEXT" false false
          ∷ legacy_column "branch" "TEXT" false false
          ∷ legacy_column "relative_path" "TEXT" true false
          ∷ legacy_column "action" "TEXT" true false
          ∷ legacy_column "status" "TEXT" true false
          ∷ legacy_column "requested_at" "TEXT" true false
          ∷ legacy_column "reservation_expires_at" "TEXT" false false
          ∷ legacy_column "blocking_agent_id" "TEXT" false false
          ∷ legacy_column "purpose" "TEXT" true false
          ∷ [],
    )
    ∷ []

unfoldable pub legacy_human_observations_schema : List LegacyTable
legacy_human_observations_schema =
    (
      text "human_observations",
      legacy_column "observation_id" "TEXT" false true
          ∷ legacy_column "workspace_id" "TEXT" true false
          ∷ legacy_column "relative_path" "TEXT" true false
          ∷ legacy_column "kind" "TEXT" true false
          ∷ legacy_column "source" "TEXT" true false
          ∷ legacy_column "confidence" "TEXT" true false
          ∷ legacy_column "observed_exists" "INTEGER" true false
          ∷ legacy_column "observed_content_hash" "TEXT" false false
          ∷ legacy_column "observed_at" "TEXT" true false
          ∷ legacy_column "summary" "TEXT" true false
          ∷ legacy_column "expires_at" "TEXT" false false
          ∷ legacy_column "reconciled_at" "TEXT" false false
          ∷ legacy_column "reconcile_decision" "TEXT" false false
          ∷ legacy_column "reconciled_by_agent_id" "TEXT" false false
          ∷ [],
    )
    ∷ []

unfoldable pub legacy_write_fences_schema : List LegacyTable
legacy_write_fences_schema =
    (
      text "write_fences",
      legacy_column "fence_id" "TEXT" false true
          ∷ legacy_column "agent_id" "TEXT" true false
          ∷ legacy_column "workspace_id" "TEXT" true false
          ∷ legacy_column "relative_path" "TEXT" true false
          ∷ legacy_column "action" "TEXT" true false
          ∷ legacy_column "acquired_at" "TEXT" true false
          ∷ legacy_column "expires_at" "TEXT" true false
          ∷ legacy_column "released_at" "TEXT" false false
          ∷ [],
    )
    ∷ []

unfoldable pub legacy_indexes : List Text
legacy_indexes =
    text "idx_activities_agent_workspace_expires_at"
    ∷ text "idx_activities_workspace_expires_at"
    ∷ text "idx_agents_workspace_agent"
    ∷ text "idx_claims_repo_relative_status_expires_at"
    ∷ text "idx_claims_reservation_path_status"
    ∷ text "idx_claims_status_expires_at"
    ∷ text "idx_claims_workspace_absolute_status_expires_at"
    ∷ text "idx_claims_workspace_path_status"
    ∷ text "idx_events_agent_created_at"
    ∷ text "idx_events_agent_sequence"
    ∷ text "idx_events_workspace_created_at"
    ∷ text "idx_notifications_agent_status"
    ∷ text "idx_notifications_agent_workspace_status_sequence"
    ∷ text "idx_notifications_status_expires_at"
    ∷ text "idx_outbox_agent_sequence_sync_status"
    ∷ text "idx_reservations_agent_status_expires_at"
    ∷ text "idx_reservations_status_expires_at"
    ∷ text "idx_wait_queue_agent_status"
    ∷ text "idx_wait_queue_request_id"
    ∷ text "idx_wait_queue_status_reservation_expires_at"
    ∷ text "idx_wait_queue_workspace_path_status"
    ∷ []

unfoldable pub legacy_human_observations_indexes : List Text
legacy_human_observations_indexes = text "idx_human_obs_unreconciled" ∷ []

unfoldable pub legacy_write_fences_indexes : List Text
legacy_write_fences_indexes =
    text "idx_write_fences_agent_workspace_active"
    ∷ text "idx_write_fences_workspace_path_active"
    ∷ []
