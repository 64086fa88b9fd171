-- ===== src/Store/Tasks.antt =====
-- The task commands of crates/stateful-store/src/store_v2.rs.
use stateful_core.Base.{
  Text, text, Bool, true, false, not, ◌&&◌, Option, none, some, List, [], ◌∷◌, ◌++◌, update_where,
  if◌then◌else◌, text_eq, trim, ◌==◌,
}
use stateful_core.Coordination.{TaskStatus, task_is_terminal}
use stateful_core.Store.Models.{
  CommandContext, RuntimeProcessInput, TaskStartInput, TaskHeartbeatInput, TaskEndInput,
  TaskCommandResult, LeaseRequestState,
}
use stateful_core.Store.Tables.{
  Db, TaskRow, ProcessRow, ProcessStatus, IntentStatus, task_started, task_heartbeat, task_ended,
}
use stateful_core.Store.Context.{
  is_blank, validate_context, at_task, is_task, task_row, task_status, task_coordination_settings,
  check_settings, require_task_owner,
}
use stateful_core.Store.Time.{validate_future_window, setting_seconds}
use stateful_core.Store.Evidence.{is_active_intent}
use stateful_core.Store.Leases.{
  lease_of_task, is_pending, release_all_task_leases, drain_leases, task_in_flight_count,
}
use stateful_core.Store.Queue.{update_requests, request_of_task, promote_waiters}
use stateful_core.Store.Audit.{append_audit}
use stateful_core.Store.Tx.{
  Env, invalid_input, ownership, Tx, Done, ◌>>=◌, ◌>>◌, pure, gets, lift, modify, fail_if,
}

abbrev pub is_draining_task : TaskStatus → Bool
is_draining_task TaskStatus.draining = true
is_draining_task _ = false

abbrev pub task_result : CommandContext → TaskStatus → TaskCommandResult
task_result ctx status = record {
  task_id = ctx.task_id;
  status = status;
  draining = is_draining_task status;
}

unfoldable pub new_task : CommandContext → TaskStartInput → TaskRow
new_task ctx input = record {
  workspace_id = ctx.workspace_id;
  task_id = ctx.task_id;
  agent_id = ctx.agent_id;
  status = TaskStatus.active;
  terminal_status = none;
  next_action = trim input.next_action;
  settings = input.settings;
  handoff = none;
  heartbeat_at = ctx.observed_at;
  expires_at = input.expires_at;
  created_at = ctx.observed_at;
  updated_at = ctx.observed_at;
}

-- `INSERT … ON CONFLICT(workspace_id, agent_id) DO UPDATE`: every other column is set anew.
unfoldable pub upsert_process : ProcessRow → List ProcessRow → List ProcessRow
upsert_process new [] = new ∷ []
upsert_process new (p ∷ ps) =
    let rest = upsert_process new ps in
    if text_eq p.workspace_id new.workspace_id && text_eq p.agent_id new.agent_id
    then new ∷ ps
    else p ∷ rest

unfoldable pub register_process : CommandContext → Option RuntimeProcessInput → Tx Done
unfolding upsert_process
register_process ctx none = pure tt
register_process ctx (some process) = do
  fail_if (is_blank process.process_start_identity)
      (invalid_input "process_start_identity is required")
  modify (λ db. record db {
    processes =
        upsert_process
          (record {
            workspace_id = ctx.workspace_id;
            agent_id = ctx.agent_id;
            pid = process.pid;
            process_start_identity = process.process_start_identity;
            status = ProcessStatus.active;
            heartbeat_at = ctx.observed_at;
          })
          db.processes;
  })

unfoldable pub create_task : Env → CommandContext → TaskStartInput → Tx TaskCommandResult
unfolding new_task register_process
create_task env ctx input = do
  modify (λ db. record db { tasks = db.tasks ++ new_task ctx input ∷ [] })
  register_process ctx input.runtime_process
  append_audit env ctx (text "task.started")
      (task_started input.next_action input.settings input.expires_at)
  pure (task_result ctx TaskStatus.active)

-- A known task is handed back to its owner as it is.
unfoldable pub start_or_resume :
    Env → CommandContext → TaskStartInput → Option TaskRow → Tx TaskCommandResult
unfolding create_task
start_or_resume env ctx input none = create_task env ctx input
start_or_resume env ctx input (some task) = do
  fail_if (not (text_eq task.agent_id ctx.agent_id)) (ownership "task owner mismatch")
  pure (task_result ctx task.status)

unfoldable pub task_start : Env → CommandContext → TaskStartInput → Tx TaskCommandResult
unfolding start_or_resume
task_start env ctx input = do
  validate_context env ctx
  fail_if (is_blank input.next_action) (invalid_input "next_action is required")
  check_settings invalid_input input.settings
  limit ← lift (setting_seconds input.settings.inactivity_timeout_seconds)
  validate_future_window env ctx.observed_at input.expires_at limit "task expires_at"
  row ← gets (task_row ctx)
  start_or_resume env ctx input row

-- The two updates of a heartbeat.
unfoldable pub beat_task : CommandContext → TaskHeartbeatInput → Db → Db
beat_task ctx input db = record db {
  tasks =
      update_where (is_task ctx.workspace_id ctx.task_id)
        (λ t. record t {
          next_action = trim input.next_action;
          heartbeat_at = ctx.observed_at;
          expires_at = input.expires_at;
          updated_at = ctx.observed_at;
        })
        db.tasks;
}

abbrev pub is_active_process : ProcessStatus → Bool
is_active_process ProcessStatus.active = true
is_active_process _ = false

unfoldable pub beat_process : CommandContext → Db → Db
beat_process ctx db = record db {
  processes =
      update_where
        (λ p.
          text_eq p.workspace_id ctx.workspace_id
          && text_eq p.agent_id ctx.agent_id
          && is_active_process p.status)
        (λ p. record p { heartbeat_at = ctx.observed_at }) db.processes;
}

unfoldable pub task_heartbeat_command :
    Env → CommandContext → TaskHeartbeatInput → Tx TaskCommandResult
task_heartbeat_command env ctx input = do
  current ← require_task_owner ctx true
  settings ← task_coordination_settings ctx
  limit ← lift (setting_seconds settings.inactivity_timeout_seconds)
  validate_future_window env ctx.observed_at input.expires_at limit "task expires_at"
  fail_if (is_blank input.next_action) (invalid_input "next_action is required")
  modify (beat_task ctx input)
  modify (beat_process ctx)
  status ← task_status ctx
  append_audit env ctx (text "task.heartbeat") (task_heartbeat input.next_action input.expires_at)
  pure (task_result ctx status)

-- The first four updates of `end_task`: the task drains towards `terminal`, and gives up its read
-- intents, its evidence and its pending request.
unfoldable pub begin_end : CommandContext → TaskEndInput → TaskStatus → Db → Db
begin_end ctx input terminal db =
    update_requests (λ q. request_of_task ctx.workspace_id ctx.task_id q && is_pending q.state)
      (λ q. record q { state = LeaseRequestState.cancelled; updated_at = ctx.observed_at })
      (record db {
        tasks =
            update_where (is_task ctx.workspace_id ctx.task_id)
              (λ t. record t {
                status = TaskStatus.draining;
                terminal_status = some terminal;
                handoff = input.handoff;
                updated_at = ctx.observed_at;
              })
              db.tasks;
        intents =
            update_where
              (λ i.
                at_task ctx.workspace_id ctx.task_id i.workspace_id i.task_id
                && is_active_intent i.status)
              (λ i. record i { status = IntentStatus.released }) db.intents;
        evidence =
            update_where
              (λ e. at_task ctx.workspace_id ctx.task_id e.workspace_id e.task_id && e.valid)
              (λ e. record e { valid = false }) db.evidence;
      })

-- `update_task_terminal`.
unfoldable pub update_task_terminal : CommandContext → TaskStatus → Db → Db
update_task_terminal ctx status db = record db {
  tasks =
      update_where (is_task ctx.workspace_id ctx.task_id)
        (λ t. record t { status = status; updated_at = ctx.observed_at }) db.tasks;
}

unfoldable pub finish_end : Env → CommandContext → TaskStatus → Tx TaskStatus
finish_end env ctx terminal = do
  modify (release_all_task_leases ctx)
  modify (update_task_terminal ctx terminal)
  promote_waiters env ctx.observed_at
  pure terminal

unfoldable pub defer_end : CommandContext → Tx TaskStatus
defer_end ctx = do
  modify (drain_leases (lease_of_task ctx.workspace_id ctx.task_id))
  pure TaskStatus.draining

unfoldable pub end_open_task :
    Env → CommandContext → TaskEndInput → TaskStatus → Text → Tx TaskCommandResult
unfolding finish_end defer_end
end_open_task env ctx input terminal command_kind = do
  modify (begin_end ctx input terminal)
  in_flight ← gets (task_in_flight_count ctx)
  status ← if in_flight == 0 then finish_end env ctx terminal else defer_end ctx
  append_audit env ctx command_kind (task_ended status in_flight input.handoff)
  pure (task_result ctx status)

unfoldable pub end_task :
    Env → CommandContext → TaskEndInput → TaskStatus → Text → Tx TaskCommandResult
unfolding end_open_task
end_task env ctx input terminal command_kind = do
  current ← require_task_owner ctx false
  if task_is_terminal current
      then pure (task_result ctx current)
      else end_open_task env ctx input terminal command_kind
