-- ===== src/Store/Maintain.antt =====
-- `maintain`, and the queries `status`, `lease_request_status` and `audit_events` of
-- crates/stateful-store/src/store_v2.rs.
use stateful_core.Base.{
  ℕ, zero, suc, ◌-◌, ◌*◌, Text, Bool, true, false, not, ◌&&◌, some, List, [], ◌∷◌, find, any,
  filter, reverse, length, update_where, if◌then◌else◌, text_eq, text_le, ltb,
}
use Prim.Native.Nat.{min}
use stateful_core.Store.Models.{LeaseRequestStatus, StatusSnapshot}
use stateful_core.Store.Tables.{
  Db, TaskRow, ReadRow, ReadStatus, IntentRow, IntentStatus, EvidenceRow, LeaseRow, WriteRow,
  WriteStatus, RequestRow, AuditRow,
}
use stateful_core.Store.Context.{is_task, is_active_task}
use stateful_core.Store.Time.{parse_timestamp, format_timestamp, validate_timestamp, nanoseconds}
use stateful_core.Store.Evidence.{is_active_intent}
use stateful_core.Store.Leases.{drain_leases, is_active_state, is_queued, is_offered}
use stateful_core.Store.Queue.{expire_offers, promote_waiters, request_of_task}
use stateful_core.Store.Expiry.{expire_tasks_and_leases}
use stateful_core.Store.Tasks.{is_draining_task}
use stateful_core.Store.Reads.{is_started}
use stateful_core.Store.Complete.{is_executing}
use stateful_core.Store.Tx.{
  Env, Result, ok, err, not_found, panicked, Tx, Done, ◌>>=◌, ◌>>◌, pure, gets, lift, modify,
  or_fail,
}

-- `EXISTS (SELECT 1 FROM tasks … AND tasks.status <> 'active')`.
abbrev pub task_ended : Text → Text → Db → Bool
task_ended workspace_id task_id db =
    any (λ t. is_task workspace_id task_id t && not (is_active_task t.status)) db.tasks

-- Reads, intents and evidence of tasks that are not active.
unfoldable pub close_reads : Text → Db → Db
close_reads now db = record db {
  reads =
      update_where (λ (r : ReadRow). is_started r.status && task_ended r.workspace_id r.task_id db)
        (λ r. record r { status = ReadStatus.failed; completed_at = some now }) db.reads;
  intents =
      update_where
        (λ (i : IntentRow). is_active_intent i.status && task_ended i.workspace_id i.task_id db)
        (λ i. record i { status = IntentStatus.released }) db.intents;
  evidence =
      update_where (λ (e : EvidenceRow). e.valid && task_ended e.workspace_id e.task_id db)
        (λ e. record e { valid = false }) db.evidence;
}

-- Leases whose executing attempt is past its deadline.
unfoldable pub drain_overdue : Text → Db → Db
drain_overdue now db =
    drain_leases
      (λ (l : LeaseRow).
        is_active_state l.state
        && any
            (λ (w : WriteRow).
              text_eq w.batch_id l.batch_id && is_executing w.status && text_le w.deadline now)
            db.writes)
      db

abbrev pub audit_retention_days : ℕ
audit_retention_days = 14

-- `parse_timestamp(now)? - Duration::days(14)`; there is no instant before the earliest one.
unfoldable pub days_before : ℕ → ℕ → Result ℕ
days_before now days =
    let span = nanoseconds (days * 86400) in if ltb now span then err panicked else ok (now - span)

-- `created_at < ?1`.
unfoldable pub prune_audit : Text → Db → Db
prune_audit cutoff db = record db {
  audit = filter (λ (a : AuditRow). text_le cutoff a.created_at) db.audit;
}

unfoldable pub maintain : Env → Text → Tx Done
unfolding days_before
maintain env now = do
  validate_timestamp env now
  modify (expire_offers now)
  modify (expire_tasks_and_leases now)
  modify (close_reads now)
  modify (drain_overdue now)
  instant ← lift (parse_timestamp env now)
  oldest ← lift (days_before instant audit_retention_days)
  cutoff ← lift (format_timestamp env oldest)
  modify (prune_audit cutoff)
  promote_waiters env now

abbrev pub is_uncertain : WriteStatus → Bool
is_uncertain WriteStatus.uncertain = true
is_uncertain _ = false

-- `count_where`, for each of the snapshot's counts.
unfoldable pub status : Db → StatusSnapshot
status db = record {
  active_tasks = length (filter (λ (t : TaskRow). is_active_task t.status) db.tasks);
  draining_tasks = length (filter (λ (t : TaskRow). is_draining_task t.status) db.tasks);
  active_leases = length (filter (λ (l : LeaseRow). is_active_state l.state) db.leases);
  draining_leases = length (filter (λ (l : LeaseRow). not (is_active_state l.state)) db.leases);
  queued_requests = length (filter (λ (q : RequestRow). is_queued q.state) db.requests);
  offered_requests = length (filter (λ (q : RequestRow). is_offered q.state) db.requests);
  executing_writes = length (filter (λ (w : WriteRow). is_executing w.status) db.writes);
  uncertain_writes = length (filter (λ (w : WriteRow). is_uncertain w.status) db.writes);
}

unfoldable pub lease_request_status : Env → Text → Text → Text → Text → Tx LeaseRequestStatus
lease_request_status env workspace_id task_id batch_id now = do
  validate_timestamp env now
  row ← gets (λ db.
      find (λ q. request_of_task workspace_id task_id q && text_eq q.batch_id batch_id) db.requests)
  q ← or_fail (not_found "lease request not found") row
  pure (record {
    batch_id = batch_id;
    state = q.state;
    version = q.version;
    offer_id = q.offer_id;
    offer_expires_at = q.offer_expires_at;
    superseded_by = q.superseded_by;
  })

unfoldable pub take {ℓ} : {A : Type ℓ} → ℕ → List A → List A
take zero xs = []
take (suc n) [] = []
take (suc n) (x ∷ xs) = x ∷ take n xs

-- The newest first.
unfoldable pub audit_events : ℕ → Db → List AuditRow
unfolding take
audit_events limit db = take (min limit 1000) (reverse db.audit)
