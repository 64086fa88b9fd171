-- ===== src/Store/Steps/Queue.antt =====
-- The checks, the promotion of waiters and the expiry step in every quiet relation.
use stateful_core.Base.{ℕ, Text, String, Bool, List, [], ◌∷◌, refl, arith}
use stateful_core.Coordination.{ResourceKey, TaskStatus, CoordinationSettings}
use stateful_core.Store.Models.{CommandContext}
use stateful_core.Store.Tables.{Db, TaskRow, LeaseRow}
use stateful_core.Store.Tx.{Env, StoreError, ◌>>=◌}
use stateful_core.Store.Time.{validate_timestamp, validate_future, validate_future_window}
use stateful_core.Store.Context.{
  validate_context, task_status, check_settings, task_coordination_settings, require_task_owner,
}
use stateful_core.Store.Queue.{
  Waiter, expire_offers, expire_request, expire_waiter, offer_request, make_offer, try_waiter,
  time_waiter, promote_one, promote_each, promote_waiters,
}
use stateful_core.Store.Expiry.{
  expire_task, expire_tasks, expire_lease, expire_leases, expire_tasks_and_leases,
}
use stateful_core.Store.Expiry
use stateful_core.Store.Leases
use stateful_core.Store.Steps.{Steps, step_rules, Steps-modify}
use stateful_core.Store.Steps.Quiet.{Quiet}
use stateful_core.Store.Steps.Evidence.{new_uuid-Steps, if-R}

module _ {R : Db → Db → Type 0} (q : Quiet R) where
  pub validate_timestamp-Steps : (env : Env) (t : Text) → Steps R (validate_timestamp env t)
  unfolding validate_timestamp
  validate_timestamp-Steps env t = search (step_rules, q.preorder) depth 30

  pub validate_future-Steps :
      (env : Env) (s t : Text) (field : String) → Steps R (validate_future env s t field)
  unfolding validate_future
  validate_future-Steps env s t field = search (step_rules, q.preorder) depth 30

  pub validate_future_window-Steps :
      (env : Env) (s t : Text) (n : ℕ) (field : String)
      → Steps R (validate_future_window env s t n field)
  unfolding validate_future_window
  validate_future_window-Steps env s t n field = search (step_rules, q.preorder) depth 30

  pub validate_context-Steps :
      (env : Env) (ctx : CommandContext) → Steps R (validate_context env ctx)
  unfolding validate_context
  validate_context-Steps env ctx =
      search (step_rules, q.preorder, validate_timestamp-Steps) depth 30

  pub check_settings-Steps :
      (wrap : String → StoreError) (s : CoordinationSettings) → Steps R (check_settings wrap s)
  unfolding check_settings ◌>>=◌
  check_settings-Steps wrap s = record {
    at = λ db a db' h. ground (arith, q.preorder.reflexive db);
  }

  pub task_status-Steps : (ctx : CommandContext) → Steps R (task_status ctx)
  unfolding task_status
  task_status-Steps ctx = search (step_rules, q.preorder) depth 30

  pub task_coordination_settings-Steps :
      (ctx : CommandContext) → Steps R (task_coordination_settings ctx)
  unfolding task_coordination_settings
  task_coordination_settings-Steps ctx =
      search (step_rules, q.preorder, check_settings-Steps) depth 30

  pub require_task_owner-Steps :
      (ctx : CommandContext) (b : Bool) → Steps R (require_task_owner ctx b)
  unfolding require_task_owner
  require_task_owner-Steps ctx b = search (step_rules, q.preorder) depth 30

  pub expire_offers-R : (now : Text) (db : Db) → R db (expire_offers now db)
  unfolding expire_offers
  expire_offers-R now db =
      q.update _ _ (record { batch_id = λ _. refl; workspace_id = λ _. refl; task_id = λ _. refl })
        db

  expire_request-R : (now batch_id : Text) (db : Db) → R db (expire_request now batch_id db)
  unfolding expire_request
  expire_request-R now batch_id db =
      q.update _ _ (record { batch_id = λ _. refl; workspace_id = λ _. refl; task_id = λ _. refl })
        db

  offer_request-R :
      (now batch_id offer_id expires : Text) (db : Db)
      → R db (offer_request now batch_id offer_id expires db)
  unfolding offer_request
  offer_request-R now batch_id offer_id expires db =
      q.update _ _ (record { batch_id = λ _. refl; workspace_id = λ _. refl; task_id = λ _. refl })
        db

  make_offer-Steps :
      (env : Env) (now : Text) (now_value : ℕ) (w : Waiter)
      → Steps R (make_offer env now now_value w)
  unfolding make_offer
  make_offer-Steps env now now_value w =
      search
        (
          step_rules,
          q.preorder,
          Steps-modify,
          check_settings-Steps,
          new_uuid-Steps q,
          offer_request-R,
        )
        depth 30

  expire_waiter-Steps : (now : Text) (w : Waiter) → Steps R (expire_waiter now w)
  unfolding expire_waiter
  expire_waiter-Steps now w = Steps-modify q.preorder _ (expire_request-R now _)

  try_waiter-Steps :
      (env : Env) (now : Text) (now_value : ℕ) (w : Waiter) (rs blocked : List ResourceKey)
      → Steps R (try_waiter env now now_value w rs blocked)
  unfolding try_waiter
  try_waiter-Steps env now now_value w rs blocked =
      search (step_rules, q.preorder, make_offer-Steps) depth 30

  time_waiter-Steps :
      (env : Env) (now : Text) (now_value : ℕ) (w : Waiter) (rs blocked : List ResourceKey)
      → Steps R (time_waiter env now now_value w rs blocked)
  unfolding time_waiter
  time_waiter-Steps env now now_value w rs blocked =
      search (step_rules, q.preorder, try_waiter-Steps, expire_waiter-Steps) depth 30

  pub promote_one-Steps :
      (env : Env) (now : Text) (now_value : ℕ) (w : Waiter) (blocked : List ResourceKey)
      → Steps R (promote_one env now now_value w blocked)
  unfolding promote_one
  promote_one-Steps env now now_value w blocked =
      search (step_rules, q.preorder, time_waiter-Steps, expire_waiter-Steps) depth 30

  promote_each-Steps :
      (env : Env) (now : Text) (now_value : ℕ) (ws : List Waiter) (blocked : List ResourceKey)
      → Steps R (promote_each env now now_value ws blocked)
  unfolding promote_each
  promote_each-Steps env now now_value [] blocked = search (step_rules, q.preorder) depth 30
  promote_each-Steps env now now_value (w ∷ ws) blocked =
      let rest = λ (b : List ResourceKey). promote_each-Steps env now now_value ws b in
      search (step_rules, q.preorder, promote_one-Steps, rest) depth 30

  pub promote_waiters-Steps : (env : Env) (now : Text) → Steps R (promote_waiters env now)
  unfolding promote_waiters
  promote_waiters-Steps env now =
      search (step_rules, q.preorder, Steps-modify, expire_offers-R, promote_each-Steps) depth 30

  expire_task-R : (now ws t : Text) (db : Db) → R db (expire_task now ws t db)
  unfolding expire_task
  expire_task-R now ws t db = if-R q _ db _ _ (ended _) (drained _)
    where
      failed :
          (s : TaskStatus) → R db (Expiry.cancel_requests now ws t (Expiry.fail_task now ws t s db))
      failed s = q.preorder.transitive _ _ _ (q.set_tasks _ db) (
          q.update _ _
            (record { batch_id = λ _. refl; workspace_id = λ _. refl; task_id = λ _. refl }) _)

      ended :
          (s : TaskStatus)
          → R db (
              Leases.delete_leases
                (Leases.lease_of_task ws t)
                (Expiry.cancel_requests now ws t (Expiry.fail_task now ws t s db)))
      ended s = q.preorder.transitive _ _ _ (failed s) (q.delete _ _)

      drained :
          (s : TaskStatus)
          → R db (
              Leases.drain_leases
                (Leases.lease_of_task ws t)
                (Expiry.cancel_requests now ws t (Expiry.fail_task now ws t s db)))
      drained s = q.preorder.transitive _ _ _ (failed s) (q.drain _ _)

  expire_tasks-R : (now : Text) (ts : List TaskRow) (db : Db) → R db (expire_tasks now ts db)
  unfolding expire_tasks
  expire_tasks-R now [] db = q.preorder.reflexive db
  expire_tasks-R now (t ∷ ts) db =
      q.preorder.transitive _ _ _ (expire_task-R now t.workspace_id t.task_id db)
        (expire_tasks-R now ts (expire_task now t.workspace_id t.task_id db))

  expire_lease-R : (batch_id : Text) (db : Db) → R db (expire_lease batch_id db)
  unfolding expire_lease
  expire_lease-R batch_id db = if-R q _ db _ _ (q.delete _ db) (q.drain _ db)

  expire_leases-R : (ls : List LeaseRow) (db : Db) → R db (expire_leases ls db)
  unfolding expire_leases
  expire_leases-R [] db = q.preorder.reflexive db
  expire_leases-R (l ∷ ls) db =
      q.preorder.transitive _ _ _ (expire_lease-R l.batch_id db)
        (expire_leases-R ls (expire_lease l.batch_id db))

  pub expire_tasks_and_leases-R : (now : Text) (db : Db) → R db (expire_tasks_and_leases now db)
  unfolding expire_tasks_and_leases
  expire_tasks_and_leases-R now db =
      q.preorder.transitive _ _ _ (expire_tasks-R now _ db) (expire_leases-R _ _)
