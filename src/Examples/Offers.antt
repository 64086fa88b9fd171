-- ===== src/Examples/Offers.antt =====
-- An offer that is activated: the task read the entry after the offer was made.
use stateful_core.Base.{ℕ, Text, text, Option, none, some, List, [], ◌∷◌, ◌≡◌, refl, true}
use stateful_core.Store.Models.{
  CommandContext, LeaseActivateInput, LeaseActivateResult, LeaseRequestState,
}
use stateful_core.Store.Tables.{Db, empty_db, RequestRow, LeaseMode}
use stateful_core.Store.Tx.{Result, ok, err}
use stateful_core.Store.Queue.{lease_request_row}
use stateful_core.Store.Activate.{lease_activate, activation}
use stateful_core.Store.Activate.Offer.{IsGranted, lease_activate-IsGranted}
use stateful_core.Examples.Scenario.{env, context, entry_a}
use stateful_core.Examples.States.{after_read}

abbrev offer_request : RequestRow
offer_request = record {
  batch_id = text "b";
  workspace_id = text "w";
  task_id = text "t";
  agent_id = text "t";
  mode = LeaseMode.exclusive_write;
  state = LeaseRequestState.offered;
  version = 2;
  queue_sequence = 1;
  offer_id = some (text "o");
  offered_at = some (10 ∷ []);
  offer_expires_at = some (80 ∷ []);
  superseded_by = none;
  expires_at = 90 ∷ [];
  created_at = 9 ∷ [];
  updated_at = 10 ∷ [];
}

abbrev offered_db : Db
offered_db = record after_read {
  requests = offer_request ∷ [];
  request_resources = record { batch_id = text "b"; resource = entry_a.resource } ∷ [];
}

abbrev now : CommandContext
now = context (text "q") (text "t") 13

abbrev named_offer : LeaseActivateInput
named_offer = record {
  batch_id = text "b";
  offer_id = text "o";
  version = 2;
  lease_expires_at = 70 ∷ [];
}

abbrev db_of : Result (LeaseActivateResult × Db) → Db
db_of (ok (_, db)) = db
db_of (err _) = empty_db

abbrev activated_db : Db
activated_db = db_of (lease_activate env now named_offer offered_db)

activates_offer :
    lease_activate env now named_offer offered_db ≡ ok (activation named_offer true, activated_db)
unfolding stateful_core.Base.insert_by stateful_core.Base.sort_by stateful_core.Base.text_eq
    stateful_core.Base.text_le stateful_core.Base.is_whitespace stateful_core.Base.trim
    stateful_core.Base.strip_prefix stateful_core.Coordination.task_is_terminal
    stateful_core.Coordination.default_settings stateful_core.Coordination.validate_settings
    stateful_core.Coordination.kind_eq stateful_core.Coordination.key_eq
    stateful_core.Coordination.has_matching_resource_kind
    stateful_core.Coordination.lease_is_terminal stateful_core.Coordination.lease_can_transition
    stateful_core.Coordination.read_can_transition stateful_core.Coordination.write_is_terminal
    stateful_core.Coordination.write_can_transition stateful_core.Resource.kind_le
    stateful_core.Resource.key_le stateful_core.Resource.same_identity
    stateful_core.Resource.dedup_after stateful_core.Resource.dedup stateful_core.Resource.new_set
    stateful_core.Resource.starts_with_slash stateful_core.Resource.suffix_is_child
    stateful_core.Resource.path_contains stateful_core.Resource.resource_keys_overlap
    stateful_core.Resource.sets_overlap stateful_core.Resource.Observation.object_kind_eq
    stateful_core.Resource.Observation.option_bool_eq
    stateful_core.Resource.Observation.object_state_eq
    stateful_core.Resource.Observation.entry_state_eq
    stateful_core.Resource.Observation.tree_state_eq stateful_core.Resource.Observation.observed_eq
    stateful_core.Resource.Observation.observation_eq stateful_core.Resource.Observation.same_state
    stateful_core.Resource.Observation.observations_eq stateful_core.Resource.Observation.is_absent
    stateful_core.Resource.Observation.state_json_eq
    stateful_core.Resource.Observation.json_same_state
    stateful_core.Resource.Observation.observations_same_state
    stateful_core.Store.Activate.mark_activated stateful_core.Store.Activate.commit_activation
    stateful_core.Store.Activate.activate_against stateful_core.Store.Activate.activate_if_clear
    stateful_core.Store.Activate.activate_resources stateful_core.Store.Activate.try_activation
    stateful_core.Store.Activate.activate_request stateful_core.Store.Activate.activate_row
    stateful_core.Store.Activate.lease_activate stateful_core.Store.Activate.release_now
    stateful_core.Store.Activate.release_later stateful_core.Store.Activate.lease_release_command
    stateful_core.Store.Audit.audit_row stateful_core.Store.Audit.append_audit
    stateful_core.Store.Context.is_blank stateful_core.Store.Context.validate_context
    stateful_core.Store.Context.at_task stateful_core.Store.Context.find_task
    stateful_core.Store.Context.task_row stateful_core.Store.Context.task_status
    stateful_core.Store.Context.settings_message stateful_core.Store.Context.check_settings
    stateful_core.Store.Context.task_coordination_settings
    stateful_core.Store.Context.require_task_owner stateful_core.Store.Evidence.revokes
    stateful_core.Store.Evidence.revoke_row stateful_core.Store.Evidence.revoke_rows
    stateful_core.Store.Evidence.revoke_overlapping stateful_core.Store.Evidence.revoke_all
    stateful_core.Store.Evidence.peer_write_in_flight stateful_core.Store.Evidence.upsert_intent
    stateful_core.Store.Evidence.no_newer_read stateful_core.Store.Evidence.insert_evidence
    stateful_core.Store.Evidence.own_write_row
    stateful_core.Store.Evidence.insert_own_write_evidence stateful_core.Store.Evidence.read_since
    stateful_core.Store.Evidence.evidences stateful_core.Store.Evidence.has_current_evidence
    stateful_core.Store.Evidence.has_historical_evidence stateful_core.Store.Leases.lease_resources
    stateful_core.Store.Leases.in_flight_slots stateful_core.Store.Leases.view_of
    stateful_core.Store.Leases.active_task_lease stateful_core.Store.Leases.agent_slot_occupied
    stateful_core.Store.Leases.set_insert stateful_core.Store.Leases.insert_names
    stateful_core.Store.Leases.conflicting_owners
    stateful_core.Store.Leases.queued_conflicting_owners stateful_core.Store.Leases.delete_leases
    stateful_core.Store.Leases.drain_leases stateful_core.Store.Leases.release_all_task_leases
    stateful_core.Store.Leases.in_flight_count stateful_core.Store.Leases.task_in_flight_count
    stateful_core.Store.Leases.insert_lease_resource stateful_core.Store.Leases.mode_of
    stateful_core.Store.Leases.insert_lease stateful_core.Store.Leases.insert_active_lease
    stateful_core.Store.Leases.new_lease stateful_core.Store.Leases.renewed_version
    stateful_core.Store.Leases.grow_lease stateful_core.Store.Leases.ensure_active_lease
    stateful_core.Store.Observations.check_observation stateful_core.Store.Observations.check_all
    stateful_core.Store.Observations.canonicalize_observations
    stateful_core.Store.Observations.find_resource stateful_core.Store.Observations.advance_resource
    stateful_core.Store.Observations.add_resource stateful_core.Store.Observations.add_alias
    stateful_core.Store.Observations.next_generation stateful_core.Store.Observations.sync_row
    stateful_core.Store.Observations.sync_observation stateful_core.Store.Observations.sync_all
    stateful_core.Store.Observations.sync_observations
    stateful_core.Store.Observations.current_observation
    stateful_core.Store.Observations.current_all
    stateful_core.Store.Observations.current_observations
    stateful_core.Store.Observations.merge_each stateful_core.Store.Observations.merge_resource_keys
    stateful_core.Store.Queue.expire_offers stateful_core.Store.Queue.request_resources
    stateful_core.Store.Queue.pending_of stateful_core.Store.Queue.pending_task_request
    stateful_core.Store.Queue.lease_request_row stateful_core.Store.Queue.supersede
    stateful_core.Store.Queue.new_request stateful_core.Store.Queue.insert_request
    stateful_core.Store.Queue.enqueue_request stateful_core.Store.Queue.join_task
    stateful_core.Store.Queue.join_tasks stateful_core.Store.Queue.waiters
    stateful_core.Store.Queue.expire_request stateful_core.Store.Queue.offer_request
    stateful_core.Store.Queue.request_blocked stateful_core.Store.Queue.make_offer
    stateful_core.Store.Queue.expire_waiter stateful_core.Store.Queue.try_waiter
    stateful_core.Store.Queue.time_waiter stateful_core.Store.Queue.promote_one
    stateful_core.Store.Queue.promote_each stateful_core.Store.Queue.promote_waiters
    stateful_core.Store.Time.parsed_timestamp stateful_core.Store.Time.parse_timestamp
    stateful_core.Store.Time.formatted stateful_core.Store.Time.format_timestamp
    stateful_core.Store.Time.setting_seconds stateful_core.Store.Time.validate_timestamp
    stateful_core.Store.Time.validate_future stateful_core.Store.Time.validate_future_window
    stateful_core.Store.Tx.continue_with stateful_core.Store.Tx.◌>>=◌
    stateful_core.Store.Tx.for_each stateful_core.Store.Tx.checked_suc
    stateful_core.Store.Tx.new_uuid
activates_offer = refl

lease_activate-IsGranted_example :
    (request : RequestRow) × (lease_request_row now named_offer.batch_id offered_db ≡ some request)
    × IsGranted now named_offer offered_db request
lease_activate-IsGranted_example =
    lease_activate-IsGranted env now named_offer offered_db (activation named_offer true)
      activated_db activates_offer refl
