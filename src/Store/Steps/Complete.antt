-- ===== src/Store/Steps/Complete.antt =====
-- `write_complete` steps in every quiet relation.
use stateful_core.Base.{Text, Bool, Option, none, some, List, true, false}
use stateful_core.Coordination.{TaskStatus, ResourceObservation}
use stateful_core.Store.Models.{
  CommandContext, WriteCompleteInput, WriteTerminal, WriteResultStatus, success, failed_known,
}
use stateful_core.Store.Tables.{Db, WriteRow}
use stateful_core.Store.Tx.{Env}
use stateful_core.Store.Complete.{
  invalidate_uncertain_write, write_uncertain, write_succeeded, settle, close_attempt, own_evidence,
  free_slots, delete_batch, drain_batch, settle_lease, end_draining, finish_draining,
  finish_draining_task, complete_attempt, write_complete_command, Outcome,
}
use stateful_core.Store.Steps.{Steps, step_rules, Steps-modify}
use stateful_core.Store.Steps.Quiet.{Quiet}
use stateful_core.Store.Steps.Evidence.{
  append_audit-Steps, revoke_all-R, insert_own_write_evidence-Steps, sync_observations-Steps,
  canonicalize_observations-Steps,
}
use stateful_core.Store.Steps.Queue.{require_task_owner-Steps, promote_waiters-Steps}

module _ {R : Db → Db → Type 0} (q : Quiet R) where
  invalidate-R :
      (ctx : CommandContext) (os : List ResourceObservation) (db : Db)
      → R db (invalidate_uncertain_write ctx os db)
  unfolding invalidate_uncertain_write
  invalidate-R ctx os db = revoke_all-R q ctx _ none db

  write_uncertain-Steps :
      (ctx : CommandContext) (os : List ResourceObservation) → Steps R (write_uncertain ctx os)
  unfolding write_uncertain
  write_uncertain-Steps ctx os =
      search (step_rules, q.preorder, Steps-modify, invalidate-R) depth 30

  write_succeeded-Steps :
      (ctx : CommandContext) (os : List ResourceObservation) → Steps R (write_succeeded ctx os)
  unfolding write_succeeded
  write_succeeded-Steps ctx os = search (step_rules, q.preorder, sync_observations-Steps q) depth 30

  settle-Steps :
      (ctx : CommandContext) (t : WriteTerminal) (b : Bool) (s a : List ResourceObservation)
      → Steps R (settle ctx t b s a)
  unfolding settle
  settle-Steps ctx success true s a = write_succeeded-Steps ctx a
  settle-Steps ctx success false s a = write_uncertain-Steps ctx s
  settle-Steps ctx failed_known b s a =
      search (step_rules, q.preorder, write_uncertain-Steps) depth 30
  settle-Steps ctx WriteTerminal.uncertain b s a = write_uncertain-Steps ctx s

  close_attempt-Steps :
      (ctx : CommandContext) (i : WriteCompleteInput) (s : WriteResultStatus)
      → Steps R (close_attempt ctx i s)
  unfolding close_attempt
  close_attempt-Steps ctx i s = search (step_rules, q.preorder, Steps-modify, q.set_writes) depth 30

  own_evidence-Steps :
      (env : Env) (ctx : CommandContext) (a : Text) (o : Option (List ResourceObservation))
      → Steps R (own_evidence env ctx a o)
  unfolding own_evidence
  own_evidence-Steps env ctx a none = search (step_rules, q.preorder) depth 30
  own_evidence-Steps env ctx a (some os) = insert_own_write_evidence-Steps q env ctx a os

  free_slots-R : (a : Text) (db : Db) → R db (free_slots a db)
  unfolding free_slots
  free_slots-R a db = q.set_slots _ none db

  delete_batch-Steps : (b : Text) → Steps R (delete_batch b)
  unfolding delete_batch
  delete_batch-Steps b = search (step_rules, q.preorder, Steps-modify, q.delete) depth 30

  drain_batch-Steps : (b : Text) → Steps R (drain_batch b)
  unfolding drain_batch
  drain_batch-Steps b = search (step_rules, q.preorder, Steps-modify, q.drain) depth 30

  settle_lease-Steps : (b : Text) (s : WriteResultStatus) → Steps R (settle_lease b s)
  unfolding settle_lease
  settle_lease-Steps b WriteResultStatus.uncertain = drain_batch-Steps b
  settle_lease-Steps b WriteResultStatus.completed =
      search (step_rules, q.preorder, delete_batch-Steps) depth 30
  settle_lease-Steps b WriteResultStatus.failed =
      search (step_rules, q.preorder, delete_batch-Steps) depth 30

  end_draining-Steps : (ctx : CommandContext) (t : TaskStatus) → Steps R (end_draining ctx t)
  unfolding end_draining
  end_draining-Steps ctx t =
      search (step_rules, q.preorder, Steps-modify, q.delete, q.set_tasks) depth 30

  finish_draining-Steps :
      (ctx : CommandContext) (t : Option TaskStatus) → Steps R (finish_draining ctx t)
  unfolding finish_draining
  finish_draining-Steps ctx none = search (step_rules, q.preorder) depth 30
  finish_draining-Steps ctx (some t) = search (step_rules, q.preorder, end_draining-Steps) depth 30

  finish_draining_task-Steps : (ctx : CommandContext) → Steps R (finish_draining_task ctx)
  unfolding finish_draining_task
  finish_draining_task-Steps ctx = search (step_rules, q.preorder, finish_draining-Steps) depth 30

  complete_attempt-Steps :
      (env : Env) (ctx : CommandContext) (i : WriteCompleteInput) (w : WriteRow) (o : Outcome)
      → Steps R (complete_attempt env ctx i w o)
  unfolding complete_attempt
  complete_attempt-Steps env ctx i w (s, own) =
      search
        (
          step_rules,
          q.preorder,
          Steps-modify,
          close_attempt-Steps,
          own_evidence-Steps,
          free_slots-R,
          settle_lease-Steps,
          finish_draining_task-Steps,
          promote_waiters-Steps q,
          append_audit-Steps q,
        )
        depth 30

  pub write_complete-Steps :
      (env : Env) (ctx : CommandContext) (i : WriteCompleteInput)
      → Steps R (write_complete_command env ctx i)
  unfolding write_complete_command
  write_complete-Steps env ctx i =
      search
        (
          step_rules,
          q.preorder,
          require_task_owner-Steps q,
          canonicalize_observations-Steps q,
          settle-Steps,
          complete_attempt-Steps,
        )
        depth 30
