-- ===== src/Store/Steps/Commands.antt =====
-- The task, read, completion and release commands step in every quiet relation.
use stateful_core.Base.{Text, Option, none, some, List, refl}
use stateful_core.Coordination.{TaskStatus, ResourceObservation}
use stateful_core.Store.Models.{
  CommandContext, RuntimeProcessInput, TaskStartInput, TaskHeartbeatInput, TaskEndInput,
  ReadStartInput, ReadCompleteInput, LeaseReleaseInput,
}
use stateful_core.Store.Tables.{Db, TaskRow, ReadRow, ReadStatus, AuditPayload}
use stateful_core.Store.Tx.{Env}
use stateful_core.Store.Leases.{release_all_task_leases}
use stateful_core.Store.Tasks.{
  register_process, create_task, start_or_resume, task_start, beat_task, beat_process,
  task_heartbeat_command, begin_end, update_task_terminal, finish_end, defer_end, end_open_task,
  end_task,
}
use stateful_core.Store.Reads.{
  read_start_command, transition_read_attempt, fail_read, finish_read, compare_read,
  read_complete_command,
}
use stateful_core.Store.Activate.{release_now, release_later, lease_release_command}
use stateful_core.Store.Steps.{Steps, step_rules, Steps-modify}
use stateful_core.Store.Steps.Quiet.{Quiet}
use stateful_core.Store.Steps.Evidence.{
  new_uuid-Steps, append_audit-Steps, insert_evidence-Steps, sync_observations-Steps,
  canonicalize_observations-Steps, current_observations-Steps,
}
use stateful_core.Store.Steps.Queue.{
  validate_future_window-Steps, validate_context-Steps, check_settings-Steps, task_status-Steps,
  task_coordination_settings-Steps, require_task_owner-Steps, promote_waiters-Steps,
}

module _ {R : Db → Db → Type 0} (q : Quiet R) where
  register_process-Steps :
      (ctx : CommandContext) (p : Option RuntimeProcessInput) → Steps R (register_process ctx p)
  unfolding register_process
  register_process-Steps ctx none = search (step_rules, q.preorder) depth 30
  register_process-Steps ctx (some p) =
      search (step_rules, q.preorder, Steps-modify, q.set_processes) depth 30

  create_task-Steps :
      (env : Env) (ctx : CommandContext) (i : TaskStartInput) → Steps R (create_task env ctx i)
  unfolding create_task
  create_task-Steps env ctx i =
      search
        (
          step_rules,
          q.preorder,
          Steps-modify,
          q.set_tasks,
          register_process-Steps,
          append_audit-Steps q,
        )
        depth 30

  start_or_resume-Steps :
      (env : Env) (ctx : CommandContext) (i : TaskStartInput) (row : Option TaskRow)
      → Steps R (start_or_resume env ctx i row)
  unfolding start_or_resume
  start_or_resume-Steps env ctx i none = create_task-Steps env ctx i
  start_or_resume-Steps env ctx i (some t) = search (step_rules, q.preorder) depth 30

  pub task_start-Steps :
      (env : Env) (ctx : CommandContext) (i : TaskStartInput) → Steps R (task_start env ctx i)
  unfolding task_start
  task_start-Steps env ctx i =
      search
        (
          step_rules,
          q.preorder,
          validate_context-Steps q,
          check_settings-Steps q,
          validate_future_window-Steps q,
          start_or_resume-Steps,
        )
        depth 30

  beat_task-R :
      (ctx : CommandContext) (i : TaskHeartbeatInput) (db : Db) → R db (beat_task ctx i db)
  unfolding beat_task
  beat_task-R ctx i db = q.set_tasks _ db

  beat_process-R : (ctx : CommandContext) (db : Db) → R db (beat_process ctx db)
  unfolding beat_process
  beat_process-R ctx db = q.set_processes _ db

  pub task_heartbeat-Steps :
      (env : Env) (ctx : CommandContext) (i : TaskHeartbeatInput)
      → Steps R (task_heartbeat_command env ctx i)
  unfolding task_heartbeat_command
  task_heartbeat-Steps env ctx i =
      search
        (
          step_rules,
          q.preorder,
          Steps-modify,
          require_task_owner-Steps q,
          task_coordination_settings-Steps q,
          validate_future_window-Steps q,
          beat_task-R,
          beat_process-R,
          task_status-Steps q,
          append_audit-Steps q,
        )
        depth 30

  begin_end-R :
      (ctx : CommandContext) (i : TaskEndInput) (t : TaskStatus) (db : Db)
      → R db (begin_end ctx i t db)
  unfolding begin_end
  begin_end-R ctx i t db = q.preorder.transitive _ _ _ (q.set_tasks _ db) (
      q.preorder.transitive _ _ _ (q.set_intents _ _) (
        q.preorder.transitive _ _ _ (q.set_evidence _ _) (
          q.update _ _
            (record { batch_id = λ _. refl; workspace_id = λ _. refl; task_id = λ _. refl }) _)))

  update_task_terminal-R :
      (ctx : CommandContext) (s : TaskStatus) (db : Db) → R db (update_task_terminal ctx s db)
  unfolding update_task_terminal
  update_task_terminal-R ctx s db = q.set_tasks _ db

  pub release_all_task_leases-R :
      (ctx : CommandContext) (db : Db) → R db (release_all_task_leases ctx db)
  unfolding release_all_task_leases
  release_all_task_leases-R ctx db = q.delete _ db

  finish_end-Steps :
      (env : Env) (ctx : CommandContext) (t : TaskStatus) → Steps R (finish_end env ctx t)
  unfolding finish_end
  finish_end-Steps env ctx t =
      search
        (
          step_rules,
          q.preorder,
          Steps-modify,
          release_all_task_leases-R,
          update_task_terminal-R,
          promote_waiters-Steps q,
        )
        depth 30

  defer_end-Steps : (ctx : CommandContext) → Steps R (defer_end ctx)
  unfolding defer_end
  defer_end-Steps ctx = search (step_rules, q.preorder, Steps-modify, q.drain) depth 30

  end_open_task-Steps :
      (env : Env) (ctx : CommandContext) (i : TaskEndInput) (t : TaskStatus) (k : Text)
      → Steps R (end_open_task env ctx i t k)
  unfolding end_open_task
  end_open_task-Steps env ctx i t k =
      search
        (
          step_rules,
          q.preorder,
          Steps-modify,
          begin_end-R,
          finish_end-Steps,
          defer_end-Steps,
          append_audit-Steps q,
        )
        depth 30

  pub end_task-Steps :
      (env : Env) (ctx : CommandContext) (i : TaskEndInput) (t : TaskStatus) (k : Text)
      → Steps R (end_task env ctx i t k)
  unfolding end_task
  end_task-Steps env ctx i t k =
      search (step_rules, q.preorder, require_task_owner-Steps q, end_open_task-Steps) depth 30

  pub read_start-Steps :
      (env : Env) (ctx : CommandContext) (i : ReadStartInput)
      → Steps R (read_start_command env ctx i)
  unfolding read_start_command
  read_start-Steps env ctx i =
      search
        (
          step_rules,
          q.preorder,
          Steps-modify,
          require_task_owner-Steps q,
          sync_observations-Steps q,
          q.set_reads,
          append_audit-Steps q,
        )
        depth 30

  transition_read-Steps :
      (read_id : Text) (s : ReadStatus) (at : Text) → Steps R (transition_read_attempt read_id s at)
  unfolding transition_read_attempt
  transition_read-Steps read_id s at =
      search (step_rules, q.preorder, Steps-modify, q.set_reads) depth 30

  fail_read-Steps :
      (env : Env) (ctx : CommandContext) (read_id event : Text) (p : AuditPayload)
      → Steps R (fail_read env ctx read_id event p)
  unfolding fail_read
  fail_read-Steps env ctx read_id event p =
      search (step_rules, q.preorder, transition_read-Steps, append_audit-Steps q) depth 30

  finish_read-Steps :
      (env : Env) (ctx : CommandContext) (a : ReadRow) (os : List ResourceObservation)
      → Steps R (finish_read env ctx a os)
  unfolding finish_read
  finish_read-Steps env ctx a os =
      search
        (
          step_rules,
          q.preorder,
          transition_read-Steps,
          new_uuid-Steps q,
          insert_evidence-Steps q,
          append_audit-Steps q,
        )
        depth 30

  compare_read-Steps :
      (env : Env) (ctx : CommandContext) (i : ReadCompleteInput) (a : ReadRow)
      → Steps R (compare_read env ctx i a)
  unfolding compare_read
  compare_read-Steps env ctx i a =
      search
        (
          step_rules,
          q.preorder,
          canonicalize_observations-Steps q,
          current_observations-Steps q,
          fail_read-Steps,
          finish_read-Steps,
        )
        depth 30

  pub read_complete-Steps :
      (env : Env) (ctx : CommandContext) (i : ReadCompleteInput)
      → Steps R (read_complete_command env ctx i)
  unfolding read_complete_command
  read_complete-Steps env ctx i =
      search
        (step_rules, q.preorder, require_task_owner-Steps q, compare_read-Steps, fail_read-Steps)
        depth 30

  release_now-Steps :
      (env : Env) (ctx : CommandContext) (b : Text) → Steps R (release_now env ctx b)
  unfolding release_now
  release_now-Steps env ctx b =
      search (step_rules, q.preorder, Steps-modify, q.delete, promote_waiters-Steps q) depth 30

  release_later-Steps : (b : Text) → Steps R (release_later b)
  unfolding release_later
  release_later-Steps b = search (step_rules, q.preorder, Steps-modify, q.drain) depth 30

  pub lease_release-Steps :
      (env : Env) (ctx : CommandContext) (i : LeaseReleaseInput)
      → Steps R (lease_release_command env ctx i)
  unfolding lease_release_command
  lease_release-Steps env ctx i =
      search
        (
          step_rules,
          q.preorder,
          require_task_owner-Steps q,
          release_now-Steps,
          release_later-Steps,
          append_audit-Steps q,
        )
        depth 30
