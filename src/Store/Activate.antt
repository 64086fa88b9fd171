-- ===== src/Store/Activate.antt =====
-- `lease_activate` and `lease_release` of crates/stateful-store/src/store_v2.rs.
pub mod Offer
use stateful_core.Base.{
  ℕ, Text, text, Bool, true, false, not, ◌&&◌, ◌||◌, Option, none, some, List, any, if◌then◌else◌,
  text_eq, is_empty, ◌==◌,
}
use stateful_core.Coordination.{ResourceKey}
use stateful_core.Store.Models.{
  CommandContext, LeaseActivateInput, LeaseActivateResult, LeaseReleaseInput, LeaseReleaseStatus,
  released, deferred, LeaseReleaseResult, LeaseRequestState,
}
use stateful_core.Store.Tables.{Db, RequestRow, lease_activated, lease_release}
use stateful_core.Store.Context.{require_task_owner, task_coordination_settings}
use stateful_core.Store.Time.{validate_future_window, setting_seconds}
use stateful_core.Store.Observations.{current_observations}
use stateful_core.Store.Evidence.{is_some, revoke_all, has_current_evidence}
use stateful_core.Store.Leases.{
  ActiveLeaseView, active_task_lease, agent_slot_occupied, conflicting_owners, delete_leases,
  drain_leases, insert_active_lease, is_offered,
}
use stateful_core.Store.Queue.{
  lease_request_row, request_resources, promote_waiters, update_requests, request_of_task,
}
use stateful_core.Store.Audit.{append_audit}
use stateful_core.Store.Tx.{
  Env, invalid_state, not_found, corrupt, Tx, ◌>>=◌, ◌>>◌, pure, gets, lift, modify, or_fail,
  fail_if, checked_suc,
}

abbrev pub activation : LeaseActivateInput → Bool → LeaseActivateResult
activation input active = record { batch_id = input.batch_id; active = active }

abbrev pub is_offer : Option Text → Text → Bool
is_offer none offer_id = false
is_offer (some o) offer_id = text_eq o offer_id

-- `UPDATE lease_requests SET state = 'activated' … WHERE … state = 'offered' AND version = ?6`.
abbrev pub activates : CommandContext → LeaseActivateInput → RequestRow → Bool
activates ctx input q =
    request_of_task ctx.workspace_id ctx.task_id q
    && text_eq q.batch_id input.batch_id
    && is_offered q.state
    && q.version == input.version

unfoldable pub mark_activated : CommandContext → LeaseActivateInput → ℕ → Db → Db
mark_activated ctx input lease_version = update_requests (activates ctx input) (λ q. record q {
  state = LeaseRequestState.activated;
  version = lease_version;
  updated_at = ctx.observed_at;
})

unfoldable pub commit_activation :
    Env
    → CommandContext
    → LeaseActivateInput
    → RequestRow
    → List ResourceKey
    → Tx LeaseActivateResult
commit_activation env ctx input request resources = do
  lease_version ← or_fail (corrupt "lease request version overflow") (checked_suc request.version)
  insert_active_lease ctx input.batch_id lease_version resources input.lease_expires_at
  modify (revoke_all ctx resources (some ctx.task_id))
  updated ← gets (λ db. any (activates ctx input) db.requests)
  fail_if (not updated) (invalid_state "offer activation lost its version CAS")
  modify (mark_activated ctx input lease_version)
  append_audit env ctx (text "lease.activated") (lease_activated input.batch_id lease_version)
  pure (activation input true)

-- The last test: evidence, an idle agent, no conflicts and no other lease.
unfoldable pub activate_against :
    Env
    → CommandContext
    → LeaseActivateInput
    → RequestRow
    → List ResourceKey
    → Bool
    → List Text
    → Tx LeaseActivateResult
unfolding commit_activation
activate_against env ctx input request resources evidence conflicts = do
  agent_busy ← gets (agent_slot_occupied ctx none)
  held ← gets (active_task_lease ctx)
  if not evidence || agent_busy || not (is_empty conflicts) || is_some held
      then pure (activation input false)
      else commit_activation env ctx input request resources

unfoldable pub activate_if_clear :
    Env
    → CommandContext
    → LeaseActivateInput
    → RequestRow
    → List ResourceKey
    → Bool
    → Tx LeaseActivateResult
unfolding activate_against
activate_if_clear env ctx input request resources evidence = do
  conflicts ← gets (conflicting_owners ctx.workspace_id ctx.task_id resources (some input.batch_id))
  activate_against env ctx input request resources evidence conflicts

unfoldable pub activate_resources :
    Env
    → CommandContext
    → LeaseActivateInput
    → RequestRow
    → Text
    → List ResourceKey
    → Tx LeaseActivateResult
unfolding activate_if_clear
activate_resources env ctx input request offered_at resources = do
  observations ← current_observations resources
  evidence ← gets (has_current_evidence ctx observations (some offered_at))
  activate_if_clear env ctx input request resources evidence

-- The offer is the one that the client names: is it still good?
unfoldable pub try_activation :
    Env → CommandContext → LeaseActivateInput → RequestRow → Tx LeaseActivateResult
unfolding activate_resources
try_activation env ctx input request = do
  offered_at ← or_fail (corrupt "offered request has no offered_at") request.offered_at
  resources ← gets (request_resources input.batch_id)
  activate_resources env ctx input request offered_at resources

-- A stale offer is declined.
unfoldable pub activate_request :
    Env → CommandContext → LeaseActivateInput → RequestRow → Tx LeaseActivateResult
unfolding try_activation
activate_request env ctx input request =
    if not (is_offered request.state)
      || not (is_offer request.offer_id input.offer_id)
      || not (request.version == input.version)
    then pure (activation input false)
    else try_activation env ctx input request

unfoldable pub activate_row :
    Env → CommandContext → LeaseActivateInput → Option RequestRow → Tx LeaseActivateResult
unfolding activate_request
activate_row env ctx input row = do
  request ← or_fail (not_found "lease request not found") row
  activate_request env ctx input request

unfoldable pub lease_activate : Env → CommandContext → LeaseActivateInput → Tx LeaseActivateResult
unfolding activate_row
lease_activate env ctx input = do
  current ← require_task_owner ctx true
  settings ← task_coordination_settings ctx
  limit ← lift (setting_seconds settings.lease_expiry_seconds)
  validate_future_window env ctx.observed_at input.lease_expires_at limit "lease_expires_at"
  row ← gets (lease_request_row ctx input.batch_id)
  activate_row env ctx input row

abbrev pub own_batch : Text → Option ActiveLeaseView → Option ActiveLeaseView
own_batch batch_id none = none
own_batch batch_id (some lease) = if text_eq lease.batch_id batch_id then some lease else none

unfoldable pub release_now : Env → CommandContext → Text → Tx LeaseReleaseStatus
release_now env ctx batch_id = do
  modify (delete_leases (λ l. text_eq l.batch_id batch_id))
  promote_waiters env ctx.observed_at
  pure released

unfoldable pub release_later : Text → Tx LeaseReleaseStatus
release_later batch_id = do modify (drain_leases (λ l. text_eq l.batch_id batch_id)); pure deferred

unfoldable pub lease_release_command :
    Env → CommandContext → LeaseReleaseInput → Tx LeaseReleaseResult
unfolding release_now release_later
lease_release_command env ctx input = do
  current ← require_task_owner ctx false
  row ← gets (λ db. own_batch input.batch_id (active_task_lease ctx db))
  lease ← or_fail (not_found "active lease not found") row
  status ←
      if lease.in_flight_count == 0
      then release_now env ctx input.batch_id
      else release_later input.batch_id
  append_audit env ctx (text "lease.release") (lease_release input.batch_id status)
  pure (record { batch_id = input.batch_id; status = status })
