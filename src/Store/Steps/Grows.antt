-- ===== src/Store/Steps/Grows.antt =====
-- Leases, requests and attempts step in a quiet relation that also bears new rows; so then does
-- every command.
use stateful_core.Base.{ℕ, Text, Bool, Option, none, some, List, refl, true, false, arith}
use stateful_core.Coordination.{ResourceKey, ResourceObservation}
use stateful_core.Resource.Error.{Checked}
use stateful_core.Store.Models.{CommandContext, WritePrepareInput, LeaseActivateInput}
use stateful_core.Store.Tables.{Db, LeaseRow, LeaseResourceRow, RequestRow}
use stateful_core.Store.Tx.{Env, ◌>>=◌}
use stateful_core.Store.Leases.{
  ActiveLeaseView, add_lease, add_lease_resource, insert_lease_resource, insert_lease,
  insert_active_lease, new_lease, renewed_version, grow_lease, ensure_active_lease,
}
use stateful_core.Store.Queue.{supersede, add_request, insert_request, enqueue_request}
use stateful_core.Store.Attempt.{slot_taken, check_slot, acquire_slot, prepare_write_attempt}
use stateful_core.Store.Prepare.{
  or_invalid_input, Demand, queue_up, reuse_or_queue, queue_for, blocked_write, grant_write,
  free_write, check_prepare_times, decide_write, write_prepare,
}
use stateful_core.Store.Activate.{mark_activated, commit_activation}
use stateful_core.Store.Steps.{Steps, step_rules, Steps-modify}
use stateful_core.Store.Steps.Quiet.{Quiet}
use stateful_core.Store.Steps.Evidence.{
  new_uuid-Steps, append_audit-Steps, revoke_all-R, canonicalize_observations-Steps,
  current_observations-Steps,
}
use stateful_core.Store.Steps.Queue.{
  validate_future-Steps, validate_future_window-Steps, task_coordination_settings-Steps,
  require_task_owner-Steps, promote_waiters-Steps,
}
use stateful_core.Store.Steps.Commands.{release_all_task_leases-R}

-- Everything in this section after the first lemmas wants these too.
pub record Grows (R : Db → Db → Type 0) : Type 0 where
  pub lease : (l : LeaseRow) (db : Db) → R db (add_lease l db)
  pub resource : (r : LeaseResourceRow) (db : Db) → R db (add_lease_resource r db)
  pub request : (q : RequestRow) (rs : List ResourceKey) (db : Db) → R db (add_request q rs db)

module _ {R : Db → Db → Type 0} (q : Quiet R) where
  slot_taken-Steps : (o : Option LeaseResourceRow) → Steps R (slot_taken o)
  unfolding slot_taken
  slot_taken-Steps none = search (step_rules, q.preorder) depth 30
  slot_taken-Steps (some r) = search (step_rules, q.preorder) depth 30

  check_slot-Steps : (l : ActiveLeaseView) (o : ResourceObservation) → Steps R (check_slot l o)
  unfolding check_slot
  check_slot-Steps l o = search (step_rules, q.preorder, slot_taken-Steps) depth 30

  acquire_slot-Steps : (b a : Text) (o : ResourceObservation) → Steps R (acquire_slot b a o)
  unfolding acquire_slot
  acquire_slot-Steps b a o = search (step_rules, q.preorder, Steps-modify, q.set_slots) depth 30

  pub prepare_write_attempt-Steps :
      (env : Env) (ctx : CommandContext) (i : WritePrepareInput) (os : List ResourceObservation)
      (l : ActiveLeaseView)
      → Steps R (prepare_write_attempt env ctx i os l)
  unfolding prepare_write_attempt
  prepare_write_attempt-Steps env ctx i os l =
      search
        (
          step_rules,
          q.preorder,
          Steps-modify,
          check_slot-Steps,
          revoke_all-R q,
          new_uuid-Steps q,
          q.set_writes,
          acquire_slot-Steps,
        )
        depth 30

  pub or_invalid_input-Steps {ℓ} : {A : Type ℓ} (c : Checked A) → Steps R (or_invalid_input c)
  unfolding or_invalid_input ◌>>=◌
  or_invalid_input-Steps c = record { at = λ db a db' h. ground (arith, q.preorder.reflexive db) }

  pub check_prepare_times-Steps :
      (env : Env) (ctx : CommandContext) (i : WritePrepareInput)
      → Steps R (check_prepare_times env ctx i)
  unfolding check_prepare_times
  check_prepare_times-Steps env ctx i =
      search
        (
          step_rules,
          q.preorder,
          task_coordination_settings-Steps q,
          validate_future-Steps q,
          validate_future_window-Steps q,
        )
        depth 30

  pub renewed_version-Steps :
      (l : ActiveLeaseView) (b : Bool) (e : Text) → Steps R (renewed_version l b e)
  unfolding renewed_version
  renewed_version-Steps l true e =
      search (step_rules, q.preorder, Steps-modify, q.set_terms) depth 30
  renewed_version-Steps l false e = search (step_rules, q.preorder) depth 30

  pub supersede-R : (ctx : CommandContext) (b : Text) (db : Db) → R db (supersede ctx b db)
  unfolding supersede
  supersede-R ctx b db =
      q.update _ _ (record { batch_id = λ _. refl; workspace_id = λ _. refl; task_id = λ _. refl })
        db

  module _ (env : Env) (ctx : CommandContext) (i : WritePrepareInput) (d : Demand)
      (enqueue : (e : Text) → Steps R (enqueue_request env ctx d.union e)) where
    queue_up-Steps : Steps R (queue_up env ctx i d)
    unfolding queue_up
    queue_up-Steps =
        search (step_rules, q.preorder, enqueue, promote_waiters-Steps q, append_audit-Steps q)
          depth 30

    reuse_or_queue-Steps :
        (p : Option (Text × List ResourceKey)) → Steps R (reuse_or_queue env ctx i d p)
    unfolding reuse_or_queue
    reuse_or_queue-Steps none = queue_up-Steps
    reuse_or_queue-Steps (some (b, rs)) =
        search (step_rules, q.preorder, append_audit-Steps q, queue_up-Steps) depth 30

    queue_for-Steps : (l : Option ActiveLeaseView) → Steps R (queue_for env ctx i d l)
    unfolding queue_for
    queue_for-Steps none = reuse_or_queue-Steps d.pending
    queue_for-Steps (some l) =
        search
          (
            step_rules,
            q.preorder,
            Steps-modify,
            release_all_task_leases-R q,
            promote_waiters-Steps q,
            queue_up-Steps,
          )
          depth 30

    pub blocked_write-Steps : Steps R (blocked_write env ctx i d)
    unfolding blocked_write
    blocked_write-Steps = search (step_rules, q.preorder, queue_for-Steps) depth 30

  module _ (env : Env) (ctx : CommandContext) (i : WritePrepareInput) (d : Demand)
      (ensure : (e : Text) → Steps R (ensure_active_lease env ctx d.active d.union e)) where
    grant_write-Steps : (os : List ResourceObservation) → Steps R (grant_write env ctx i d os)
    unfolding grant_write
    grant_write-Steps os =
        search
          (
            step_rules,
            q.preorder,
            Steps-modify,
            ensure,
            revoke_all-R q,
            prepare_write_attempt-Steps,
            append_audit-Steps q,
          )
          depth 30

    pub free_write-Steps : Steps R (free_write env ctx i d)
    unfolding free_write
    free_write-Steps =
        search (step_rules, q.preorder, current_observations-Steps q, grant_write-Steps) depth 30

  module _ (env : Env) (ctx : CommandContext) (i : LeaseActivateInput) (rs : List ResourceKey)
      (insert : (v : ℕ) (e : Text) → Steps R (insert_active_lease ctx i.batch_id v rs e)) where
    mark_activated-R : (v : ℕ) (db : Db) → R db (mark_activated ctx i v db)
    unfolding mark_activated
    mark_activated-R v db =
        q.update _ _
          (record { batch_id = λ _. refl; workspace_id = λ _. refl; task_id = λ _. refl }) db

    pub commit_activation-Steps : (r : RequestRow) → Steps R (commit_activation env ctx i r rs)
    unfolding commit_activation
    commit_activation-Steps r =
        search
          (
            step_rules,
            q.preorder,
            Steps-modify,
            insert,
            revoke_all-R q,
            mark_activated-R,
            append_audit-Steps q,
          )
          depth 30

  module _ (g : Grows R) where
    insert_lease_resource-Steps : (b : Text) (r : ResourceKey) → Steps R (insert_lease_resource b r)
    unfolding insert_lease_resource
    insert_lease_resource-Steps b r =
        search (step_rules, q.preorder, Steps-modify, g.resource) depth 30

    pub insert_active_lease-Steps :
        (ctx : CommandContext) (b : Text) (v : ℕ) (rs : List ResourceKey) (e : Text)
        → Steps R (insert_active_lease ctx b v rs e)
    unfolding insert_active_lease insert_lease
    insert_active_lease-Steps ctx b v rs e =
        search (step_rules, q.preorder, Steps-modify, g.lease, insert_lease_resource-Steps) depth 30

    new_lease-Steps :
        (env : Env) (ctx : CommandContext) (rs : List ResourceKey) (e : Text)
        → Steps R (new_lease env ctx rs e)
    unfolding new_lease
    new_lease-Steps env ctx rs e =
        search (step_rules, q.preorder, new_uuid-Steps q, insert_active_lease-Steps) depth 30

    grow_lease-Steps :
        (ctx : CommandContext) (l : ActiveLeaseView) (rs : List ResourceKey) (e : Text)
        → Steps R (grow_lease ctx l rs e)
    unfolding grow_lease
    grow_lease-Steps ctx l rs e =
        search (step_rules, q.preorder, insert_lease_resource-Steps, renewed_version-Steps) depth 30

    ensure_active_lease-Steps :
        (env : Env) (ctx : CommandContext) (o : Option ActiveLeaseView) (rs : List ResourceKey)
        (e : Text)
        → Steps R (ensure_active_lease env ctx o rs e)
    unfolding ensure_active_lease
    ensure_active_lease-Steps env ctx none rs e = new_lease-Steps env ctx rs e
    ensure_active_lease-Steps env ctx (some l) rs e = grow_lease-Steps ctx l rs e

    enqueue_request-Steps :
        (env : Env) (ctx : CommandContext) (rs : List ResourceKey) (e : Text)
        → Steps R (enqueue_request env ctx rs e)
    unfolding enqueue_request insert_request
    enqueue_request-Steps env ctx rs e =
        search
          (
            step_rules,
            q.preorder,
            Steps-modify,
            new_uuid-Steps q,
            supersede-R,
            q.set_lease_queue,
            g.request,
          )
          depth 30

    decide_write-Steps :
        (env : Env) (ctx : CommandContext) (i : WritePrepareInput) (os : List ResourceObservation)
        → Steps R (decide_write env ctx i os)
    unfolding decide_write
    decide_write-Steps env ctx i os =
        let blocked = λ (d : Demand).
          blocked_write-Steps env ctx i d (λ e. enqueue_request-Steps env ctx d.union e) in
        let free = λ (d : Demand).
          free_write-Steps env ctx i d
            (λ e. ensure_active_lease-Steps env ctx d.active d.union e) in
        search (step_rules, q.preorder, blocked, free) depth 30

    pub write_prepare-Steps :
        (env : Env) (ctx : CommandContext) (i : WritePrepareInput)
        → Steps R (write_prepare env ctx i)
    unfolding write_prepare
    write_prepare-Steps env ctx i =
        search
          (
            step_rules,
            q.preorder,
            require_task_owner-Steps q,
            check_prepare_times-Steps,
            canonicalize_observations-Steps q,
            or_invalid_input-Steps,
            decide_write-Steps,
          )
          depth 30
