-- ===== src/Store/Expiry.antt =====
-- Expiry in crates/stateful-store/src/store_v2.rs, which every command runs first.
pub mod Done
use stateful_core.Base.{
  Text, Bool, ◌&&◌, some, List, [], ◌∷◌, filter, update_where, if◌then◌else◌, text_eq, text_le,
  ◌==◌,
}
use stateful_core.Coordination.{TaskStatus}
use stateful_core.Store.Models.{LeaseRequestState}
use stateful_core.Store.Tables.{Db, TaskRow, LeaseRow}
use stateful_core.Store.Context.{is_task, is_active_task}
use stateful_core.Store.Leases.{
  is_pending, is_active_state, lease_of_task, in_flight_count, in_flight_slots, delete_leases,
  drain_leases,
}
use stateful_core.Store.Queue.{update_requests, request_of_task}

abbrev pub task_due : Text → TaskRow → Bool
task_due now t = is_active_task t.status && text_le t.expires_at now

abbrev pub lease_due : Text → LeaseRow → Bool
lease_due now l = text_le l.expires_at now && is_active_state l.state

-- `UPDATE tasks SET status = ?3, terminal_status = 'failed' …`.
abbrev pub fail_task : Text → Text → Text → TaskStatus → Db → Db
fail_task now workspace_id task_id status db = record db {
  tasks =
      update_where (is_task workspace_id task_id)
        (λ t. record t {
          status = status;
          terminal_status = some TaskStatus.failed;
          updated_at = now;
        })
        db.tasks;
}

-- `UPDATE lease_requests SET state = 'cancelled' …`.
abbrev pub cancel_requests : Text → Text → Text → Db → Db
cancel_requests now workspace_id task_id =
    update_requests (λ q. request_of_task workspace_id task_id q && is_pending q.state)
      (λ q. record q { state = LeaseRequestState.cancelled; updated_at = now })

-- The first loop's body. The count is read before the updates.
unfoldable pub expire_task : Text → Text → Text → Db → Db
expire_task now workspace_id task_id db =
    if in_flight_count workspace_id task_id db == 0
    then delete_leases (lease_of_task workspace_id task_id) (
        cancel_requests now workspace_id task_id
          (fail_task now workspace_id task_id TaskStatus.failed db))
    else drain_leases (lease_of_task workspace_id task_id) (
        cancel_requests now workspace_id task_id
          (fail_task now workspace_id task_id TaskStatus.draining db))

unfoldable pub expire_tasks : Text → List TaskRow → Db → Db
expire_tasks now [] db = db
expire_tasks now (t ∷ ts) db = expire_tasks now ts (expire_task now t.workspace_id t.task_id db)

-- The second loop's body.
unfoldable pub expire_lease : Text → Db → Db
expire_lease batch_id db =
    if in_flight_slots batch_id db == 0
    then delete_leases (λ l. text_eq l.batch_id batch_id) db
    else drain_leases (λ l. text_eq l.batch_id batch_id) db

unfoldable pub expire_leases : List LeaseRow → Db → Db
expire_leases [] db = db
expire_leases (l ∷ ls) db = expire_leases ls (expire_lease l.batch_id db)

unfoldable pub expire_tasks_and_leases : Text → Db → Db
expire_tasks_and_leases now db =
    let db' = expire_tasks now (filter (task_due now) db.tasks) db in
    expire_leases (filter (lease_due now) db'.leases) db'
