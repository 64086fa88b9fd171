-- ===== src/Store/Reads.antt =====
-- The read commands of crates/stateful-store/src/store_v2.rs.
use stateful_core.Base.{
  Text, text, Bool, true, false, not, ◌&&◌, ◌||◌, none, some, List, [], ◌∷◌, ◌++◌, find, any,
  update_where, if◌then◌else◌, text_eq, is_empty,
}
use stateful_core.Coordination.{ResourceObservation}
use stateful_core.Resource.Observation.{observations_eq, observations_same_state}
use stateful_core.Store.Models.{
  CommandContext, ReadStartInput, ReadCompleteInput, ReadResultStatus, ReadCommandResult,
}
use stateful_core.Store.Tables.{
  Db, ReadRow, ReadStatus, AuditPayload, read_started, read_failed, read_unstable, read_completed,
}
use stateful_core.Store.Context.{is_blank, at_task, require_task_owner}
use stateful_core.Store.Observations.{
  resources_of, canonicalize_observations, sync_observations, current_observations,
}
use stateful_core.Store.Evidence.{insert_evidence}
use stateful_core.Store.Audit.{append_audit}
use stateful_core.Store.Tx.{
  Env, invalid_input, invalid_state, not_found, ownership, sqlite, Tx, Done, ◌>>=◌, ◌>>◌, pure,
  gets, modify, or_fail, fail_if, for_each, new_uuid,
}

abbrev pub is_started : ReadStatus → Bool
is_started ReadStatus.started = true
is_started _ = false

unfoldable pub new_read : CommandContext → ReadStartInput → List ResourceObservation → ReadRow
new_read ctx input resources = record {
  read_id = input.read_id;
  workspace_id = ctx.workspace_id;
  task_id = ctx.task_id;
  invocation_id = input.invocation_id;
  resources = resources;
  status = ReadStatus.started;
  started_at = ctx.observed_at;
  completed_at = none;
}

abbrev pub read_id_taken : Text → Db → Bool
read_id_taken read_id db = any (λ (r : ReadRow). text_eq r.read_id read_id) db.reads

-- The unique index (workspace, task, invocation).
abbrev pub read_invocation_taken : CommandContext → Text → Db → Bool
read_invocation_taken ctx invocation_id db =
    any
      (λ (r : ReadRow).
        at_task ctx.workspace_id ctx.task_id r.workspace_id r.task_id
        && text_eq r.invocation_id invocation_id)
      db.reads

unfoldable pub read_start_command : Env → CommandContext → ReadStartInput → Tx ReadCommandResult
unfolding new_read
read_start_command env ctx input = do
  current ← require_task_owner ctx true
  fail_if (is_blank input.read_id || is_blank input.invocation_id)
      (invalid_input "read_id and invocation_id are required")
  resources ← sync_observations ctx input.resources
  fail_if (is_empty resources) (invalid_input "read resource set is required")
  known ← gets (read_id_taken input.read_id)
  fail_if known
      (invalid_state "read attempt already exists; only its original command receipt may replay")
  taken ← gets (read_invocation_taken ctx input.invocation_id)
  fail_if taken sqlite
  modify (λ db. record db { reads = db.reads ++ new_read ctx input resources ∷ [] })
  append_audit env ctx (text "read.started")
      (read_started input.read_id input.invocation_id resources)
  pure (record { read_id = input.read_id; status = ReadResultStatus.started; evidence_id = none })

abbrev pub open_read : Text → ReadRow → Bool
open_read read_id r = text_eq r.read_id read_id && is_started r.status

unfoldable pub transition_read_attempt : Text → ReadStatus → Text → Tx Done
transition_read_attempt read_id status completed_at = do
  started ← gets (λ db. any (open_read read_id) db.reads)
  fail_if (not started) (invalid_state "read attempt terminal transition lost its one-shot CAS")
  modify (λ db. record db {
    reads =
        update_where (open_read read_id)
          (λ r. record r { status = status; completed_at = some completed_at }) db.reads;
  })

unfoldable pub fail_read : Env → CommandContext → Text → Text → AuditPayload → Tx ReadCommandResult
fail_read env ctx read_id event_type payload = do
  transition_read_attempt read_id ReadStatus.failed ctx.observed_at
  append_audit env ctx event_type payload
  pure (record { read_id = read_id; status = ReadResultStatus.failed; evidence_id = none })

unfoldable pub finish_read :
    Env → CommandContext → ReadRow → List ResourceObservation → Tx ReadCommandResult
finish_read env ctx attempt completed = do
  transition_read_attempt attempt.read_id ReadStatus.completed ctx.observed_at
  evidence_id ← new_uuid env
  for_each completed (insert_evidence ctx evidence_id attempt.read_id attempt.started_at)
  append_audit env ctx (text "read.completed")
      (read_completed attempt.read_id evidence_id completed)
  pure (record {
    read_id = attempt.read_id;
    status = ReadResultStatus.completed;
    evidence_id = some evidence_id;
  })

-- The read was reported as exact: is what it saw still there, and what it reports?
unfoldable pub compare_read :
    Env → CommandContext → ReadCompleteInput → ReadRow → Tx ReadCommandResult
unfolding fail_read finish_read
compare_read env ctx input attempt = do
  reported ← canonicalize_observations ctx input.resources
  completed ← current_observations (resources_of attempt.resources)
  if not (observations_eq attempt.resources completed)
        || not (observations_same_state attempt.resources reported)
      then fail_read env ctx attempt.read_id (text "read.unstable") (read_unstable attempt.read_id)
      else finish_read env ctx attempt completed

unfoldable pub is_eligible : ReadCompleteInput → Bool
is_eligible input = input.terminal_success && input.complete && input.stable && input.exact

unfoldable pub read_complete_command :
    Env → CommandContext → ReadCompleteInput → Tx ReadCommandResult
unfolding fail_read compare_read
read_complete_command env ctx input = do
  current ← require_task_owner ctx true
  row ← gets (λ db.
      find
        (λ (r : ReadRow).
          text_eq r.read_id input.read_id
          && at_task ctx.workspace_id ctx.task_id r.workspace_id r.task_id)
        db.reads)
  attempt ← or_fail (not_found "read attempt not found") row
  fail_if (not (text_eq attempt.invocation_id input.invocation_id))
      (ownership "read invocation does not match start")
  fail_if (not (is_started attempt.status))
      (invalid_state "read attempt is terminal; only its original completion receipt may replay")
  if is_eligible input
      then compare_read env ctx input attempt
      else fail_read env ctx attempt.read_id (text "read.failed")
          (read_failed input.read_id input.terminal_success input.complete input.stable input.exact)
