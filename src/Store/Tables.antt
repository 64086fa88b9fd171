-- ===== src/Store/Tables.antt =====
-- crates/stateful-store/src/schema_v2.rs as records: one record for each table's row, and the
-- database. JSON columns hold the value that they encode.
use stateful_core.Base.{ℕ, Text, Bool, Option, List, []}
use stateful_core.Coordination.{
  TaskStatus, CoordinationSettings, ResourceKind, ResourceKey, Observed, ResourceObservation,
  MutationOperation,
}
use stateful_core.Store.Models.{
  WriteResultStatus, WriteCompleteInput, LeaseRequestState, LeaseReleaseStatus, Command, Response,
}

pub record TaskRow : Type 0 where
  pub workspace_id : Text
  pub task_id : Text
  pub agent_id : Text
  pub status : TaskStatus
  pub terminal_status : Option TaskStatus
  pub next_action : Text
  pub settings : CoordinationSettings
  pub handoff : Option Text
  pub heartbeat_at : Text
  pub expires_at : Text
  pub created_at : Text
  pub updated_at : Text

pub data ProcessStatus : Type 0 where
  active terminated unknown : ProcessStatus

pub record ProcessRow : Type 0 where
  pub workspace_id : Text
  pub agent_id : Text
  pub pid : ℕ
  pub process_start_identity : Text
  pub status : ProcessStatus
  pub heartbeat_at : Text

pub record ResourceRow : Type 0 where
  pub workspace_id : Text
  pub resource_id : Text
  pub kind : ResourceKind
  pub canonical_path : Text
  pub state : Observed
  pub generation : ℕ
  pub updated_at : Text

pub record AliasRow : Type 0 where
  pub workspace_id : Text
  pub resource_id : Text
  pub canonical_path : Text

pub data SourceKind : Type 0 where
  read own_write : SourceKind

-- `resource_id`, `resource_kind` and `canonical_path`, with the row's workspace, are `resource`.
pub record EvidenceRow : Type 0 where
  pub evidence_id : Text
  pub workspace_id : Text
  pub task_id : Text
  pub source_kind : SourceKind
  pub source_id : Text
  pub resource : ResourceKey
  pub observation : ResourceObservation
  pub complete : Bool
  pub stable : Bool
  pub exact : Bool
  pub valid : Bool
  pub recorded_at : Text
  pub read_started_at : Option Text

pub data IntentStatus : Type 0 where
  active revoked released : IntentStatus

pub record IntentRow : Type 0 where
  pub workspace_id : Text
  pub task_id : Text
  pub resource : ResourceKey
  pub evidence_id : Text
  pub status : IntentStatus
  pub created_at : Text
  pub read_started_at : Text

pub data LeaseMode : Type 0 where
  exclusive_write exclusive_directory : LeaseMode

pub data ActiveState : Type 0 where
  active draining : ActiveState

pub record LeaseRow : Type 0 where
  pub batch_id : Text
  pub workspace_id : Text
  pub task_id : Text
  pub agent_id : Text
  pub mode : LeaseMode
  pub state : ActiveState
  pub version : ℕ
  pub acquired_at : Text
  pub expires_at : Text
  pub release_pending : Bool

pub record LeaseResourceRow : Type 0 where
  pub batch_id : Text
  pub resource : ResourceKey
  pub acquired_generation : ℕ
  pub in_flight_attempt_id : Option Text

pub record RequestRow : Type 0 where
  pub batch_id : Text
  pub workspace_id : Text
  pub task_id : Text
  pub agent_id : Text
  pub mode : LeaseMode
  pub state : LeaseRequestState
  pub version : ℕ
  pub queue_sequence : ℕ
  pub offer_id : Option Text
  pub offered_at : Option Text
  pub offer_expires_at : Option Text
  pub superseded_by : Option Text
  pub expires_at : Text
  pub created_at : Text
  pub updated_at : Text

pub record RequestResourceRow : Type 0 where
  pub batch_id : Text
  pub resource : ResourceKey

pub data ReadStatus : Type 0 where
  started completed failed : ReadStatus

pub record ReadRow : Type 0 where
  pub read_id : Text
  pub workspace_id : Text
  pub task_id : Text
  pub invocation_id : Text
  pub resources : List ResourceObservation
  pub status : ReadStatus
  pub started_at : Text
  pub completed_at : Option Text

pub data WriteStatus : Type 0 where
  executing completed failed uncertain : WriteStatus

pub record WriteRow : Type 0 where
  pub attempt_id : Text
  pub permit_id : Text
  pub workspace_id : Text
  pub task_id : Text
  pub invocation_id : Text
  pub batch_id : Text
  pub operation : MutationOperation
  pub start_observations : List ResourceObservation
  pub status : WriteStatus
  pub started_at : Text
  pub deadline : Text
  pub completed_at : Option Text
  pub terminal_result : Option WriteCompleteInput

pub record EventRow : Type 0 where
  pub event_id : Text
  pub workspace_id : Text
  pub task_id : Text
  pub agent_id : Text
  pub request_id : Text
  pub command : Command
  pub response : Response
  pub recorded_at : Text

pub record ReceiptRow : Type 0 where
  pub workspace_id : Text
  pub agent_id : Text
  pub request_id : Text
  pub contract_revision : Text
  pub command_kind : Text
  pub payload_digest : Text
  pub response : Response
  pub recorded_at : Text

-- The `json!` object of each audit event; the constructor goes with `event_type`.
pub data AuditPayload : Type 0 where
  task_started :
      (next_action : Text) (settings : CoordinationSettings) (expires_at : Text) → AuditPayload
  task_heartbeat : (next_action expires_at : Text) → AuditPayload
  task_ended : (status : TaskStatus) (in_flight : ℕ) (handoff : Option Text) → AuditPayload
  read_started :
      (read_id invocation_id : Text) (resources : List ResourceObservation) → AuditPayload
  read_failed : (read_id : Text) (terminal_success complete stable exact : Bool) → AuditPayload
  read_unstable : (read_id : Text) → AuditPayload
  read_completed :
      (read_id evidence_id : Text) (resources : List ResourceObservation) → AuditPayload
  queue_reused : (batch_id : Text) (resources : List ResourceKey) → AuditPayload
  lease_queued :
      (batch_id : Text) (queue_position : ℕ) (resources : List ResourceKey) (conflicts : List Text)
      → AuditPayload
  write_prepared :
      (batch_id : Text) (lease_version : ℕ) (write_attempt_id : Text) (resources : List ResourceKey)
      → AuditPayload
  lease_activated : (batch_id : Text) (lease_version : ℕ) → AuditPayload
  lease_release : (batch_id : Text) (status : LeaseReleaseStatus) → AuditPayload
  write_completed :
      (attempt_id batch_id : Text) (status : WriteResultStatus) (error : Option Text) → AuditPayload

pub record AuditRow : Type 0 where
  pub event_id : Text
  pub workspace_id : Text
  pub task_id : Text
  pub agent_id : Text
  pub event_type : Text
  pub payload : AuditPayload
  pub created_at : Text

-- `lease_queue` is the row of `coordination_sequences`. `uuids_drawn` counts the calls of
-- `Uuid::new_v4`, so that each call gives the next identifier of a supply.
pub record Db : Type 0 where
  pub tasks : List TaskRow
  pub processes : List ProcessRow
  pub resources : List ResourceRow
  pub aliases : List AliasRow
  pub evidence : List EvidenceRow
  pub intents : List IntentRow
  pub leases : List LeaseRow
  pub lease_resources : List LeaseResourceRow
  pub requests : List RequestRow
  pub request_resources : List RequestResourceRow
  pub reads : List ReadRow
  pub writes : List WriteRow
  pub events : List EventRow
  pub receipts : List ReceiptRow
  pub audit : List AuditRow
  pub lease_queue : ℕ
  pub uuids_drawn : ℕ

abbrev pub empty_db : Db
empty_db = record {
  tasks = [];
  processes = [];
  resources = [];
  aliases = [];
  evidence = [];
  intents = [];
  leases = [];
  lease_resources = [];
  requests = [];
  request_resources = [];
  reads = [];
  writes = [];
  events = [];
  receipts = [];
  audit = [];
  lease_queue = 0;
  uuids_drawn = 0;
}
