-- ===== src/Store/Prepare.antt =====
-- `write_prepare` of crates/stateful-store/src/store_v2.rs.
pub mod Ready
use stateful_core.Base.{
  Text, text, String, Bool, true, false, not, ◌&&◌, ◌||◌, Option, none, some, List, [], ◌∷◌, ◌++◌,
  if◌then◌else◌, is_empty, ◌==◌,
}
use stateful_core.Coordination.{ResourceKey, key_eq, ResourceObservation}
use stateful_core.Resource.Error.{
  ResourceError, invalid_relative_path, invalid_observation, invalid_transition, Checked,
}
use stateful_core.Resource.Observation.{observations_same_state}
use stateful_core.Resource.Start.{validate_operation_start}
use stateful_core.Store.Models.{
  CommandContext, WritePrepareInput, WritePrepareResult, ready, queued, reread_required, denied,
}
use stateful_core.Store.Tables.{Db, queue_reused, lease_queued, write_prepared}
use stateful_core.Store.Context.{is_blank, require_task_owner, task_coordination_settings}
use stateful_core.Store.Time.{validate_future, validate_future_window, setting_seconds}
use stateful_core.Store.Observations.{
  resources_of, canonicalize_observations, current_observations, merge_resource_keys,
}
use stateful_core.Store.Evidence.{
  is_some, revoke_all, has_current_evidence, has_historical_evidence,
}
use stateful_core.Store.Leases.{
  ActiveLeaseView, active_task_lease, agent_slot_occupied, conflicting_owners,
  queued_conflicting_owners, release_all_task_leases, ensure_active_lease,
}
use stateful_core.Store.Queue.{pending_task_request, enqueue_request, promote_waiters}
use stateful_core.Store.Attempt.{prepare_write_attempt}
use stateful_core.Store.Audit.{append_audit}
use stateful_core.Store.Tx.{
  Env, invalid_input, Tx, Done, ◌>>=◌, ◌>>◌, pure, gets, lift, modify, fail_if, ok, err,
}

-- `error.to_string()`, without the path of a bad one.
unfoldable pub error_message : ResourceError → String
error_message (invalid_relative_path _) = "path must stay inside the workspace"
error_message (invalid_observation m) = m
error_message (invalid_transition m) = m

unfoldable pub or_invalid_input {ℓ} : {A : Type ℓ} → Checked A → Tx A
unfolding error_message
or_invalid_input (Checked.ok a) db = ok (a, db)
or_invalid_input (Checked.err e) db = err (invalid_input (error_message e))

abbrev pub batch_ids : Option ActiveLeaseView → List Text
batch_ids none = []
batch_ids (some lease) = lease.batch_id ∷ []

abbrev pub pending_ids : Option (Text × List ResourceKey) → List Text
pending_ids none = []
pending_ids (some (batch_id, _)) = batch_id ∷ []

abbrev pub lease_keys : Option ActiveLeaseView → List ResourceKey
lease_keys none = []
lease_keys (some lease) = lease.resources

unfoldable pub merge_pending :
    List ResourceKey → Option (Text × List ResourceKey) → List ResourceKey
merge_pending union none = union
merge_pending union (some (_, resources)) = merge_resource_keys union resources

-- The resources of the active lease, of the pending request and of this write.
unfoldable pub resource_union :
    Option ActiveLeaseView → Option (Text × List ResourceKey) → List ResourceKey → List ResourceKey
unfolding merge_pending
resource_union active pending requested =
    merge_resource_keys (merge_pending (lease_keys active) pending) requested

-- `Vec`'s `==` on keys.
unfoldable pub keys_eq : List ResourceKey → List ResourceKey → Bool
keys_eq [] [] = true
keys_eq (a ∷ as') (b ∷ bs) = key_eq a b && keys_eq as' bs
keys_eq _ _ = false

-- What `write_prepare` knows when it decides.
pub record Demand : Type 0 where
  pub reported : List ResourceObservation
  pub active : Option ActiveLeaseView
  pub pending : Option (Text × List ResourceKey)
  pub union : List ResourceKey
  pub conflicts : List Text

-- A new request for the union, in place of the pending one.
unfoldable pub queue_up : Env → CommandContext → WritePrepareInput → Demand → Tx WritePrepareResult
queue_up env ctx input d = do
  (batch_id, position) ← enqueue_request env ctx d.union input.request_expires_at
  promote_waiters env ctx.observed_at
  append_audit env ctx (text "lease.queued") (lease_queued batch_id position d.union d.conflicts)
  pure (queued batch_id)

-- The pending request already asks for the union, and no lease was given up for it.
unfoldable pub reuse_or_queue :
    Env
    → CommandContext
    → WritePrepareInput
    → Demand
    → Option (Text × List ResourceKey)
    → Tx WritePrepareResult
unfolding queue_up
reuse_or_queue env ctx input d none = queue_up env ctx input d
reuse_or_queue env ctx input d (some (batch_id, resources)) =
    let reuse =
      append_audit env ctx (text "lease.queue_reused") (queue_reused batch_id d.union)
      >> pure (queued batch_id) in
    if keys_eq resources d.union then reuse else queue_up env ctx input d

-- The task holds a lease or not.
unfoldable pub queue_for :
    Env
    → CommandContext
    → WritePrepareInput
    → Demand
    → Option ActiveLeaseView
    → Tx WritePrepareResult
unfolding reuse_or_queue
queue_for env ctx input d none = reuse_or_queue env ctx input d d.pending
queue_for env ctx input d (some lease) =
    let give_up =
      modify (release_all_task_leases ctx)
      >> promote_waiters env ctx.observed_at
      >> queue_up env ctx input d in
    if not (lease.in_flight_count == 0)
    then pure (denied (text "lease_growth_while_write_in_flight"))
    else give_up

-- The write cannot go ahead now.
unfoldable pub blocked_write :
    Env → CommandContext → WritePrepareInput → Demand → Tx WritePrepareResult
unfolding queue_for
blocked_write env ctx input d = do
  seen ← gets (has_historical_evidence ctx d.reported)
  if not seen
      then pure (reread_required (batch_ids d.active ++ pending_ids d.pending))
      else queue_for env ctx input d d.active

-- Lease and attempt of a write whose evidence is current.
unfoldable pub grant_write :
    Env
    → CommandContext
    → WritePrepareInput
    → Demand
    → List ResourceObservation
    → Tx WritePrepareResult
grant_write env ctx input d current = do
  lease ← ensure_active_lease env ctx d.active d.union input.lease_expires_at
  modify (revoke_all ctx d.union (some ctx.task_id))
  (attempt_id, permit_id) ← prepare_write_attempt env ctx input current lease
  append_audit env ctx (text "write.prepared")
      (write_prepared lease.batch_id lease.version attempt_id (resources_of d.reported))
  pure (ready attempt_id permit_id (lease.batch_id ∷ []))

unfoldable pub free_write :
    Env → CommandContext → WritePrepareInput → Demand → Tx WritePrepareResult
unfolding grant_write
free_write env ctx input d = do
  current ← current_observations (resources_of d.reported)
  evidence ← gets (has_current_evidence ctx current none)
  if not (observations_same_state current d.reported) || not evidence
      then pure (reread_required (batch_ids d.active))
      else grant_write env ctx input d current

-- The times and the invocation of the input.
unfoldable pub check_prepare_times : Env → CommandContext → WritePrepareInput → Tx Done
check_prepare_times env ctx input = do
  settings ← task_coordination_settings ctx
  offer_ttl ← lift (setting_seconds settings.offer_ttl_seconds)
  validate_future_window env ctx.observed_at input.request_expires_at offer_ttl "request_expires_at"
  lease_expiry ← lift (setting_seconds settings.lease_expiry_seconds)
  validate_future_window env ctx.observed_at input.lease_expires_at lease_expiry "lease_expires_at"
  validate_future env ctx.observed_at input.attempt_deadline "attempt_deadline"
  fail_if (is_blank input.invocation_id) (invalid_input "invocation_id is required")

-- What is demanded, and whether another task of the agent holds a lease.
unfoldable pub read_demand : CommandContext → List ResourceObservation → Db → Demand × Bool
read_demand ctx reported db =
    let active = active_task_lease ctx db in
    let pending = pending_task_request ctx db in
    let union = resource_union active pending (resources_of reported) in
    (
      record {
        reported = reported;
        active = active;
        pending = pending;
        union = union;
        conflicts =
            conflicting_owners ctx.workspace_id ctx.task_id union none db
            ++ queued_conflicting_owners ctx.workspace_id ctx.task_id union db;
      },
      agent_slot_occupied ctx (some ctx.task_id) db,
    )

-- From the demand on.
unfoldable pub decide_write :
    Env → CommandContext → WritePrepareInput → List ResourceObservation → Tx WritePrepareResult
unfolding blocked_write free_write
decide_write env ctx input reported = do
  (d, other_agent_task_has_lease) ← gets (read_demand ctx reported)
  if is_some d.pending || other_agent_task_has_lease || not (is_empty d.conflicts)
      then blocked_write env ctx input d
      else free_write env ctx input d

unfoldable pub write_prepare : Env → CommandContext → WritePrepareInput → Tx WritePrepareResult
unfolding decide_write
write_prepare env ctx input = do
  current ← require_task_owner ctx true
  check_prepare_times env ctx input
  reported ← canonicalize_observations ctx input.current
  fail_if (is_empty reported) (invalid_input "write resource set is required")
  or_invalid_input (validate_operation_start input.operation reported)
  decide_write env ctx input reported
