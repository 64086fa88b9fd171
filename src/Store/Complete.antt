-- ===== src/Store/Complete.antt =====
-- `write_complete` of crates/stateful-store/src/store_v2.rs.
pub mod Once
use stateful_core.Base.{
  Text, text, Bool, true, false, not, ◌&&◌, ◌||◌, Option, none, some, List, find, any, update_where,
  if◌then◌else◌, text_eq, is_empty, ◌==◌,
}
use stateful_core.Coordination.{TaskStatus, ResourceObservation}
use stateful_core.Resource.Error.{is_ok}
use stateful_core.Resource.Observation.{observations_same_state}
use stateful_core.Resource.Transition.{validate_operation_transition}
use stateful_core.Store.Models.{
  CommandContext, WriteTerminal, success, failed_known, WriteCompleteInput, WriteResultStatus,
  WriteCompleteResult,
}
use stateful_core.Store.Tables.{
  Db, TaskRow, LeaseRow, LeaseResourceRow, WriteRow, WriteStatus, write_completed,
}
use stateful_core.Store.Context.{at_task, is_task, require_task_owner}
use stateful_core.Store.Observations.{resources_of, canonicalize_observations, sync_observations}
use stateful_core.Store.Evidence.{revoke_all, insert_own_write_evidence}
use stateful_core.Store.Leases.{
  delete_leases, drain_leases, in_flight_slots, lease_of_task, task_in_flight_count,
}
use stateful_core.Store.Queue.{promote_waiters}
use stateful_core.Store.Tasks.{is_draining_task}
use stateful_core.Store.Audit.{append_audit}
use stateful_core.Store.Tx.{
  Env, invalid_state, not_found, ownership, Tx, Done, ◌>>=◌, ◌>>◌, pure, gets, modify, or_fail,
  fail_if, when,
}

abbrev pub is_executing : WriteStatus → Bool
is_executing WriteStatus.executing = true
is_executing _ = false

-- `write_result_name`, as the column's value.
unfoldable pub write_result_name : WriteResultStatus → WriteStatus
write_result_name WriteResultStatus.completed = WriteStatus.completed
write_result_name WriteResultStatus.failed = WriteStatus.failed
write_result_name WriteResultStatus.uncertain = WriteStatus.uncertain

-- `invalidate_uncertain_write`.
unfoldable pub invalidate_uncertain_write : CommandContext → List ResourceObservation → Db → Db
invalidate_uncertain_write ctx resources db = revoke_all ctx (resources_of resources) none db

-- The status of the attempt, and the observations that become the task's evidence.
abbrev pub Outcome : Type 0
Outcome = WriteResultStatus × Option (List ResourceObservation)

unfoldable pub write_uncertain : CommandContext → List ResourceObservation → Tx Outcome
write_uncertain ctx start = do
  modify (invalidate_uncertain_write ctx start)
  pure (WriteResultStatus.uncertain, none)

unfoldable pub write_succeeded : CommandContext → List ResourceObservation → Tx Outcome
write_succeeded ctx actual = do
  synced ← sync_observations ctx actual
  pure (WriteResultStatus.completed, some synced)

unfoldable pub settle :
    CommandContext
    → WriteTerminal
    → Bool
    → List ResourceObservation
    → List ResourceObservation
    → Tx Outcome
unfolding write_uncertain write_succeeded
settle ctx success true start actual = write_succeeded ctx actual
settle ctx failed_known success_matches start actual =
    if observations_same_state start actual
    then pure (WriteResultStatus.failed, none)
    else write_uncertain ctx start
settle ctx _ _ start actual = write_uncertain ctx start

abbrev pub open_write : Text → WriteRow → Bool
open_write attempt_id w = text_eq w.attempt_id attempt_id && is_executing w.status

unfoldable pub close_attempt : CommandContext → WriteCompleteInput → WriteResultStatus → Tx Done
close_attempt ctx input status = do
  executing ← gets (λ db. any (open_write input.attempt_id) db.writes)
  fail_if (not executing) (invalid_state "write completion lost its one-shot CAS")
  modify (λ db. record db {
    writes =
        update_where (open_write input.attempt_id)
          (λ w. record w {
            status = write_result_name status;
            completed_at = some ctx.observed_at;
            terminal_result = some input;
          })
          db.writes;
  })

unfoldable pub own_evidence :
    Env → CommandContext → Text → Option (List ResourceObservation) → Tx Done
own_evidence env ctx attempt_id none = pure tt
own_evidence env ctx attempt_id (some observations) =
    insert_own_write_evidence env ctx attempt_id observations

abbrev pub holds_slot : Text → Option Text → Bool
holds_slot attempt_id none = false
holds_slot attempt_id (some a) = text_eq a attempt_id

-- `UPDATE lease_resources SET in_flight_attempt_id = NULL WHERE in_flight_attempt_id = ?1`.
unfoldable pub free_slots : Text → Db → Db
free_slots attempt_id db = record db {
  lease_resources =
      update_where (λ (r : LeaseResourceRow). holds_slot attempt_id r.in_flight_attempt_id)
        (λ r. record r { in_flight_attempt_id = none }) db.lease_resources;
}

abbrev pub pending_release : Option LeaseRow → Bool
pending_release none = false
pending_release (some l) = l.release_pending

unfoldable pub delete_batch : Text → Tx Bool
delete_batch batch_id = do modify (delete_leases (λ l. text_eq l.batch_id batch_id)); pure true

unfoldable pub drain_batch : Text → Tx Bool
drain_batch batch_id = do modify (drain_leases (λ l. text_eq l.batch_id batch_id)); pure false

-- The lease after the attempt: drained, released if that is pending and nothing is in flight, or
-- kept. The result says whether it was released.
unfoldable pub settle_lease : Text → WriteResultStatus → Tx Bool
unfolding delete_batch drain_batch
settle_lease batch_id WriteResultStatus.uncertain = drain_batch batch_id
settle_lease batch_id _ = do
  lease ← gets (λ db. find (λ (l : LeaseRow). text_eq l.batch_id batch_id) db.leases)
  remaining ← gets (in_flight_slots batch_id)
  if pending_release lease && remaining == 0 then delete_batch batch_id else pure false

abbrev pub draining_terminal : Option TaskRow → Option TaskStatus
draining_terminal none = none
draining_terminal (some t) = t.terminal_status

unfoldable pub end_draining : CommandContext → TaskStatus → Tx Bool
end_draining ctx terminal = do
  modify (delete_leases (lease_of_task ctx.workspace_id ctx.task_id))
  modify (λ db. record db {
    tasks =
        update_where (λ t. is_task ctx.workspace_id ctx.task_id t && is_draining_task t.status)
          (λ t. record t { status = terminal; updated_at = ctx.observed_at }) db.tasks;
  })
  pure true

unfoldable pub finish_draining : CommandContext → Option TaskStatus → Tx Bool
unfolding end_draining
finish_draining ctx none = pure false
finish_draining ctx (some terminal) = do
  in_flight ← gets (task_in_flight_count ctx)
  if in_flight == 0 then end_draining ctx terminal else pure false

-- A draining task with nothing in flight ends. The result says whether it did.
unfoldable pub finish_draining_task : CommandContext → Tx Bool
unfolding finish_draining
finish_draining_task ctx = do
  terminal ← gets (λ db.
      draining_terminal
        (find (λ t. is_task ctx.workspace_id ctx.task_id t && is_draining_task t.status) db.tasks))
  finish_draining ctx terminal

abbrev pub attempt_of_task : CommandContext → Text → WriteRow → Bool
attempt_of_task ctx attempt_id w =
    text_eq w.attempt_id attempt_id && at_task ctx.workspace_id ctx.task_id w.workspace_id w.task_id

-- From the outcome on.
unfoldable pub complete_attempt :
    Env → CommandContext → WriteCompleteInput → WriteRow → Outcome → Tx WriteCompleteResult
unfolding close_attempt own_evidence
complete_attempt env ctx input attempt (status, own_write_evidence) = do
  close_attempt ctx input status
  own_evidence env ctx input.attempt_id own_write_evidence
  modify (free_slots input.attempt_id)
  released ← settle_lease attempt.batch_id status
  finished ← finish_draining_task ctx
  when (released || finished) (promote_waiters env ctx.observed_at)
  append_audit env ctx (text "write.completed")
      (write_completed input.attempt_id attempt.batch_id status input.error)
  pure (record { attempt_id = input.attempt_id; status = status })

unfoldable pub write_complete_command :
    Env → CommandContext → WriteCompleteInput → Tx WriteCompleteResult
unfolding complete_attempt
write_complete_command env ctx input = do
  current ← require_task_owner ctx false
  row ← gets (λ db. find (attempt_of_task ctx input.attempt_id) db.writes)
  attempt ← or_fail (not_found "write attempt not found") row
  fail_if
      (not (text_eq attempt.invocation_id input.invocation_id)
        || not (text_eq attempt.permit_id input.permit_id))
      (ownership "write invocation or permit does not match prepare")
  fail_if (not (is_executing attempt.status))
      (invalid_state "write attempt is terminal; only its original completion receipt may replay")
  actual ← canonicalize_observations ctx input.post_resources
  expected ← canonicalize_observations ctx input.expected_post_resources
  let success_matches =
      not (is_empty expected)
      && is_ok (
          validate_operation_transition attempt.operation attempt.start_observations expected
            actual)
  outcome ← settle ctx input.terminal success_matches attempt.start_observations actual
  complete_attempt env ctx input attempt outcome
