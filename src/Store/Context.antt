-- ===== src/Store/Context.antt =====
-- The checks of crates/stateful-store/src/store_v2.rs on a command's context and task.
use stateful_core.Base.{
  Text, String, Bool, true, false, not, ◌&&◌, Option, none, some, find, text_eq, trim, is_empty,
}
use stateful_core.Coordination.{
  TaskStatus, CoordinationSettings, validate_settings, SettingsError, not_positive, bad_timing,
}
use stateful_core.Store.Models.{CommandContext}
use stateful_core.Store.Tables.{Db, TaskRow}
use stateful_core.Store.Tx.{
  Env, err, StoreError, invalid_input, invalid_state, not_found, ownership, corrupt, sqlite, Tx,
  Done, ◌>>=◌, ◌>>◌, pure, gets, lift, or_fail, fail_if,
}
use stateful_core.Store.Time.{validate_timestamp}

unfoldable pub is_blank : Text → Bool
is_blank value = is_empty (trim value)

unfoldable pub validate_context : Env → CommandContext → Tx Done
validate_context env ctx = do
  fail_if (is_blank ctx.request_id) (invalid_input "request_id is required")
  fail_if (is_blank ctx.task_id) (invalid_input "task_id is required")
  fail_if (is_blank ctx.agent_id) (invalid_input "agent_id is required")
  fail_if (is_blank ctx.workspace_id) (invalid_input "workspace_id is required")
  validate_timestamp env ctx.observed_at

-- `WHERE workspace_id = ?1 AND task_id = ?2`, on the two columns.
unfoldable pub at_task : Text → Text → Text → Text → Bool
at_task workspace_id task_id row_workspace row_task =
    text_eq row_workspace workspace_id && text_eq row_task task_id

abbrev pub is_task : Text → Text → TaskRow → Bool
is_task workspace_id task_id row = at_task workspace_id task_id row.workspace_id row.task_id

unfoldable pub find_task : Text → Text → Db → Option TaskRow
find_task workspace_id task_id db = find (is_task workspace_id task_id) db.tasks

-- `task_row` hands over the agent and the status of this row.
unfoldable pub task_row : CommandContext → Db → Option TaskRow
unfolding find_task
task_row ctx db = find_task ctx.workspace_id ctx.task_id db

unfoldable pub task_status : CommandContext → Tx TaskStatus
task_status ctx = do
  row ← gets (task_row ctx)
  task ← or_fail (not_found "task not found") row
  pure task.status

unfoldable pub settings_message : SettingsError → String
settings_message not_positive = "coordination settings must be positive"
settings_message bad_timing =
    "heartbeat must be at most one third of inactivity timeout, below lease expiry"

-- `settings.validate().map_err(wrap)`.
unfoldable pub check_settings : (String → StoreError) → CoordinationSettings → Tx Done
unfolding settings_message
check_settings wrap settings = elim (validate_settings settings) [
  | none ↦ pure tt
  | some e ↦ lift (err (wrap (settings_message e)))
]

unfoldable pub task_coordination_settings : CommandContext → Tx CoordinationSettings
unfolding task_row check_settings
task_coordination_settings ctx = do
  row ← gets (task_row ctx)
  task ← or_fail sqlite row
  check_settings corrupt task.settings
  pure task.settings

abbrev pub is_active_task : TaskStatus → Bool
is_active_task TaskStatus.active = true
is_active_task _ = false

unfoldable pub require_task_owner : CommandContext → Bool → Tx TaskStatus
unfolding task_row
require_task_owner ctx require_active = do
  row ← gets (task_row ctx)
  task ← or_fail (not_found "task not found") row
  fail_if (not (text_eq task.agent_id ctx.agent_id)) (ownership "task owner mismatch")
  fail_if (require_active && not (is_active_task task.status)) (invalid_state "task is not active")
  pure task.status
