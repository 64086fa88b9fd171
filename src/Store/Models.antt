-- ===== src/Store/Models.antt =====
-- crates/stateful-store/src/models_v2.rs: the inputs and results of the commands.
use stateful_core.Base.{ℕ, Text, Bool, Option, List}
use stateful_core.Coordination.{
  TaskStatus, CoordinationSettings, ResourceObservation, MutationOperation,
}

pub record CommandContext : Type 0 where
  pub request_id : Text
  pub task_id : Text
  pub agent_id : Text
  pub workspace_id : Text
  pub observed_at : Text

pub record RuntimeProcessInput : Type 0 where
  pub pid : ℕ
  pub process_start_identity : Text

pub record TaskStartInput : Type 0 where
  pub next_action : Text
  pub settings : CoordinationSettings
  pub expires_at : Text
  pub runtime_process : Option RuntimeProcessInput

pub record TaskHeartbeatInput : Type 0 where
  pub next_action : Text
  pub expires_at : Text

pub record TaskEndInput : Type 0 where
  pub handoff : Option Text

pub record TaskCommandResult : Type 0 where
  pub task_id : Text
  pub status : TaskStatus
  pub draining : Bool

pub record ReadStartInput : Type 0 where
  pub read_id : Text
  pub invocation_id : Text
  pub resources : List ResourceObservation

pub record ReadCompleteInput : Type 0 where
  pub read_id : Text
  pub invocation_id : Text
  pub resources : List ResourceObservation
  pub terminal_success : Bool
  pub complete : Bool
  pub stable : Bool
  pub exact : Bool

pub data ReadResultStatus : Type 0 where
  started completed failed : ReadResultStatus

pub record ReadCommandResult : Type 0 where
  pub read_id : Text
  pub status : ReadResultStatus
  pub evidence_id : Option Text

pub record WritePrepareInput : Type 0 where
  pub invocation_id : Text
  pub operation : MutationOperation
  pub current : List ResourceObservation
  pub request_expires_at : Text
  pub lease_expires_at : Text
  pub attempt_deadline : Text

pub data WritePrepareResult : Type 0 where
  ready : (attempt_id permit_id : Text) (lease_batch_ids : List Text) → WritePrepareResult
  queued : (batch_id : Text) → WritePrepareResult
  reread_required : (lease_batch_ids : List Text) → WritePrepareResult
  denied : (reason_code : Text) → WritePrepareResult

pub record LeaseActivateInput : Type 0 where
  pub batch_id : Text
  pub offer_id : Text
  pub version : ℕ
  pub lease_expires_at : Text

pub record LeaseActivateResult : Type 0 where
  pub batch_id : Text
  pub active : Bool

pub record LeaseReleaseInput : Type 0 where
  pub batch_id : Text

pub data LeaseReleaseStatus : Type 0 where
  released deferred : LeaseReleaseStatus

pub record LeaseReleaseResult : Type 0 where
  pub batch_id : Text
  pub status : LeaseReleaseStatus

pub data WriteTerminal : Type 0 where
  success failed_known uncertain : WriteTerminal

pub record WriteCompleteInput : Type 0 where
  pub attempt_id : Text
  pub permit_id : Text
  pub invocation_id : Text
  pub terminal : WriteTerminal
  pub post_resources : List ResourceObservation
  pub expected_post_resources : List ResourceObservation
  pub error : Option Text

pub data WriteResultStatus : Type 0 where
  completed failed uncertain : WriteResultStatus

pub record WriteCompleteResult : Type 0 where
  pub attempt_id : Text
  pub status : WriteResultStatus

pub data LeaseRequestState : Type 0 where
  queued offered activated superseded expired cancelled : LeaseRequestState

pub record LeaseRequestStatus : Type 0 where
  pub batch_id : Text
  pub state : LeaseRequestState
  pub version : ℕ
  pub offer_id : Option Text
  pub offer_expires_at : Option Text
  pub superseded_by : Option Text

pub record StatusSnapshot : Type 0 where
  pub active_tasks : ℕ
  pub draining_tasks : ℕ
  pub active_leases : ℕ
  pub draining_leases : ℕ
  pub queued_requests : ℕ
  pub offered_requests : ℕ
  pub executing_writes : ℕ
  pub uncertain_writes : ℕ

-- The commands that `accepted_command` runs, each with its payload.
pub data Command : Type 0 where
  task_start : TaskStartInput → Command
  task_heartbeat : TaskHeartbeatInput → Command
  task_finalize task_cancel : TaskEndInput → Command
  read_start : ReadStartInput → Command
  read_complete : ReadCompleteInput → Command
  write_prepare : WritePrepareInput → Command
  lease_activate : LeaseActivateInput → Command
  lease_release : LeaseReleaseInput → Command
  write_complete : WriteCompleteInput → Command

-- Their responses.
pub data Response : Type 0 where
  task : TaskCommandResult → Response
  read : ReadCommandResult → Response
  prepare : WritePrepareResult → Response
  activate : LeaseActivateResult → Response
  release : LeaseReleaseResult → Response
  complete : WriteCompleteResult → Response
