-- ===== src/Store/Accepted.antt =====
-- `accepted_command` of crates/stateful-store/src/store_v2.rs: receipts, and the commands behind
-- them.
pub mod Replay
use stateful_core.Base.{
  Text, text, Bool, not, ◌&&◌, ◌||◌, Option, none, some, [], ◌∷◌, ◌++◌, find, any, if◌then◌else◌,
  text_eq,
}
use stateful_core.Coordination.{TaskStatus}
use stateful_core.Store.Models.{CommandContext, Command, Response}
use stateful_core.Store.Tables.{Db, EventRow, ReceiptRow}
use stateful_core.Store.Context.{validate_context}
use stateful_core.Store.Expiry.{expire_tasks_and_leases}
use stateful_core.Store.Queue.{promote_waiters}
use stateful_core.Store.Tasks.{task_start, task_heartbeat_command, end_task}
use stateful_core.Store.Reads.{read_start_command, read_complete_command}
use stateful_core.Store.Prepare.{write_prepare}
use stateful_core.Store.Activate.{lease_activate, lease_release_command}
use stateful_core.Store.Complete.{write_complete_command}
use stateful_core.Store.Tx.{
  Env, idempotency_mismatch, sqlite, Tx, Done, ◌>>=◌, ◌>>◌, pure, fail, gets, modify, fail_if,
  new_uuid,
}

abbrev pub contract_revision : Text
contract_revision = text "lease-1"

unfoldable pub command_kind : Command → Text
command_kind (Command.task_start _) = text "task.start"
command_kind (Command.task_heartbeat _) = text "task.heartbeat"
command_kind (Command.task_finalize _) = text "task.finalize"
command_kind (Command.task_cancel _) = text "task.cancel"
command_kind (Command.read_start _) = text "read.start"
command_kind (Command.read_complete _) = text "read.complete"
command_kind (Command.write_prepare _) = text "write.prepare"
command_kind (Command.lease_activate _) = text "lease.activate"
command_kind (Command.lease_release _) = text "lease.release"
command_kind (Command.write_complete _) = text "write.complete"

unfoldable pub respond {ℓ} : {A : Type ℓ} → (A → Response) → Tx A → Tx Response
respond wrap m = do a ← m; pure (wrap a)

-- The `operation` of each command.
unfoldable pub operation : Env → CommandContext → Command → Tx Response
unfolding respond
operation env ctx (Command.task_start i) = respond Response.task (task_start env ctx i)
operation env ctx (Command.task_heartbeat i) =
    respond Response.task (task_heartbeat_command env ctx i)
operation env ctx (Command.task_finalize i) =
    respond Response.task (end_task env ctx i TaskStatus.completed (text "task.finalize"))
operation env ctx (Command.task_cancel i) =
    respond Response.task (end_task env ctx i TaskStatus.cancelled (text "task.cancel"))
operation env ctx (Command.read_start i) = respond Response.read (read_start_command env ctx i)
operation env ctx (Command.read_complete i) =
    respond Response.read (read_complete_command env ctx i)
operation env ctx (Command.write_prepare i) = respond Response.prepare (write_prepare env ctx i)
operation env ctx (Command.lease_activate i) = respond Response.activate (lease_activate env ctx i)
operation env ctx (Command.lease_release i) =
    respond Response.release (lease_release_command env ctx i)
operation env ctx (Command.write_complete i) =
    respond Response.complete (write_complete_command env ctx i)

abbrev pub receipt_of : CommandContext → ReceiptRow → Bool
receipt_of ctx r =
    text_eq r.workspace_id ctx.workspace_id
    && text_eq r.agent_id ctx.agent_id
    && text_eq r.request_id ctx.request_id

unfoldable pub find_receipt : CommandContext → Db → Option ReceiptRow
find_receipt ctx db = find (receipt_of ctx) db.receipts

unfoldable pub mismatches : Env → Command → ReceiptRow → Bool
mismatches env command r =
    not (text_eq r.contract_revision contract_revision)
    || not (text_eq r.command_kind (command_kind command))
    || not (text_eq r.payload_digest (env.payload_digest command))

unfoldable pub event_row : CommandContext → Command → Response → Text → EventRow
event_row ctx command response event_id = record {
  event_id = event_id;
  workspace_id = ctx.workspace_id;
  task_id = ctx.task_id;
  agent_id = ctx.agent_id;
  request_id = ctx.request_id;
  command = command;
  response = response;
  recorded_at = ctx.observed_at;
}

unfoldable pub receipt_row : Env → CommandContext → Command → Response → ReceiptRow
receipt_row env ctx command response = record {
  workspace_id = ctx.workspace_id;
  agent_id = ctx.agent_id;
  request_id = ctx.request_id;
  contract_revision = contract_revision;
  command_kind = command_kind command;
  payload_digest = env.payload_digest command;
  response = response;
  recorded_at = ctx.observed_at;
}

-- The unique indexes on `command_events`; a receipt has the same key, and there was none.
abbrev pub event_taken : CommandContext → Text → Db → Bool
event_taken ctx event_id db =
    any
      (λ (e : EventRow).
        text_eq e.event_id event_id
        || (text_eq e.workspace_id ctx.workspace_id
            && text_eq e.agent_id ctx.agent_id
            && text_eq e.request_id ctx.request_id))
      db.events

unfoldable pub journal : Env → CommandContext → Command → Response → Text → Db → Db
unfolding event_row receipt_row
journal env ctx command response event_id db = record db {
  events = db.events ++ event_row ctx command response event_id ∷ [];
  receipts = db.receipts ++ receipt_row env ctx command response ∷ [];
}

-- The journal and the receipt of an accepted command.
unfoldable pub record_command : Env → CommandContext → Command → Response → Tx Done
unfolding journal
record_command env ctx command response = do
  event_id ← new_uuid env
  taken ← gets (event_taken ctx event_id)
  fail_if taken sqlite
  modify (journal env ctx command response event_id)

unfoldable pub run_command : Env → CommandContext → Command → Tx Response
run_command env ctx command = do
  modify (expire_tasks_and_leases ctx.observed_at)
  promote_waiters env ctx.observed_at
  response ← operation env ctx command
  record_command env ctx command response
  pure response

unfoldable pub replay_or_run : Env → CommandContext → Command → Option ReceiptRow → Tx Response
unfolding run_command
replay_or_run env ctx command none = run_command env ctx command
replay_or_run env ctx command (some r) =
    if mismatches env command r then fail idempotency_mismatch else pure r.response

unfoldable pub accepted_command : Env → CommandContext → Command → Tx Response
unfolding replay_or_run
accepted_command env ctx command = do
  validate_context env ctx
  receipt ← gets (find_receipt ctx)
  replay_or_run env ctx command receipt
