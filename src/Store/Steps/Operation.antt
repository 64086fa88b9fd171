-- ===== src/Store/Steps/Operation.antt =====
-- Every command of `accepted_command` steps in a quiet relation that also bears new rows.
use stateful_core.Base.{Bool, List}
use stateful_core.Coordination.{ResourceKey}
use stateful_core.Store.Models.{CommandContext, LeaseActivateInput, Command}
use stateful_core.Store.Tables.{Db, RequestRow}
use stateful_core.Store.Tx.{Env}
use stateful_core.Store.Activate.{
  activate_against, activate_if_clear, activate_resources, try_activation, activate_request,
  activate_row, lease_activate,
}
use stateful_core.Store.Accepted.{respond, operation}
use stateful_core.Store.Steps.{Steps, step_rules}
use stateful_core.Store.Steps.Quiet.{Quiet}
use stateful_core.Store.Steps.Evidence.{current_observations-Steps}
use stateful_core.Store.Steps.Queue.{
  validate_future_window-Steps, task_coordination_settings-Steps, require_task_owner-Steps,
}
use stateful_core.Store.Steps.Commands.{
  task_start-Steps, task_heartbeat-Steps, end_task-Steps, read_start-Steps, read_complete-Steps,
  lease_release-Steps,
}
use stateful_core.Store.Steps.Complete.{write_complete-Steps}
use stateful_core.Store.Steps.Grows.{
  Grows, insert_active_lease-Steps, commit_activation-Steps, write_prepare-Steps,
}

module _ {R : Db → Db → Type 0} (q : Quiet R) (g : Grows R) where
  activate_if_clear-Steps :
      (env : Env) (ctx : CommandContext) (i : LeaseActivateInput) (r : RequestRow)
      (rs : List ResourceKey) (b : Bool)
      → Steps R (activate_if_clear env ctx i r rs b)
  unfolding activate_if_clear activate_against
  activate_if_clear-Steps env ctx i r rs b =
      let commit = λ (x : RequestRow).
        commit_activation-Steps q env ctx i rs
          (λ v e. insert_active_lease-Steps q g ctx i.batch_id v rs e) x in
      search (step_rules, q.preorder, commit) depth 30

  try_activation-Steps :
      (env : Env) (ctx : CommandContext) (i : LeaseActivateInput) (r : RequestRow)
      → Steps R (try_activation env ctx i r)
  unfolding try_activation activate_resources
  try_activation-Steps env ctx i r =
      search (step_rules, q.preorder, current_observations-Steps q, activate_if_clear-Steps) depth
        30

  lease_activate-Steps :
      (env : Env) (ctx : CommandContext) (i : LeaseActivateInput)
      → Steps R (lease_activate env ctx i)
  unfolding lease_activate activate_row activate_request
  lease_activate-Steps env ctx i =
      search
        (
          step_rules,
          q.preorder,
          require_task_owner-Steps q,
          task_coordination_settings-Steps q,
          validate_future_window-Steps q,
          try_activation-Steps,
        )
        depth 30

  pub operation-Steps :
      (env : Env) (ctx : CommandContext) (c : Command) → Steps R (operation env ctx c)
  unfolding operation respond
  operation-Steps env ctx (Command.task_start i) =
      search (step_rules, q.preorder, task_start-Steps q) depth 30
  operation-Steps env ctx (Command.task_heartbeat i) =
      search (step_rules, q.preorder, task_heartbeat-Steps q) depth 30
  operation-Steps env ctx (Command.task_finalize i) =
      search (step_rules, q.preorder, end_task-Steps q) depth 30
  operation-Steps env ctx (Command.task_cancel i) =
      search (step_rules, q.preorder, end_task-Steps q) depth 30
  operation-Steps env ctx (Command.read_start i) =
      search (step_rules, q.preorder, read_start-Steps q) depth 30
  operation-Steps env ctx (Command.read_complete i) =
      search (step_rules, q.preorder, read_complete-Steps q) depth 30
  operation-Steps env ctx (Command.write_prepare i) =
      search (step_rules, q.preorder, write_prepare-Steps q g) depth 30
  operation-Steps env ctx (Command.lease_activate i) =
      search (step_rules, q.preorder, lease_activate-Steps) depth 30
  operation-Steps env ctx (Command.lease_release i) =
      search (step_rules, q.preorder, lease_release-Steps q) depth 30
  operation-Steps env ctx (Command.write_complete i) =
      search (step_rules, q.preorder, write_complete-Steps q) depth 30
