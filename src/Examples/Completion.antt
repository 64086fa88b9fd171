-- ===== src/Examples/Completion.antt =====
-- The attempt of a write that failed without a change is completed.
use stateful_core.Base.{Text, text, Option, none, some, List, [], ◌∷◌, ◌≡◌, refl, true, find}
use stateful_core.Store.Models.{
  CommandContext, WriteTerminal, WriteCompleteInput, WriteCompleteResult, WriteResultStatus,
}
use stateful_core.Store.Tables.{Db, empty_db, WriteRow}
use stateful_core.Store.Tx.{Result, ok, err}
use stateful_core.Store.Complete.{is_executing, attempt_of_task, write_complete_command}
use stateful_core.Store.Complete.Once.{write_complete_command-executing}
use stateful_core.Examples.Scenario.{env, context, entry_a}
use stateful_core.Examples.States.{after_prepare}

abbrev later : CommandContext
later = context (text "z") (text "t") 14

abbrev failed_write : WriteCompleteInput
failed_write = record {
  attempt_id = 1008 ∷ [];
  permit_id = 1009 ∷ [];
  invocation_id = text "j";
  terminal = WriteTerminal.failed_known;
  post_resources = entry_a ∷ [];
  expected_post_resources = entry_a ∷ [];
  error = none;
}

abbrev db_of : Result (WriteCompleteResult × Db) → Db
db_of (ok (_, db)) = db
db_of (err _) = empty_db

abbrev completed_db : Db
completed_db = db_of (write_complete_command env later failed_write after_prepare)

abbrev failed_result : WriteCompleteResult
failed_result = record { attempt_id = 1008 ∷ []; status = WriteResultStatus.failed }

completes_write :
    write_complete_command env later failed_write after_prepare ≡ ok (failed_result, completed_db)
unfolding stateful_core.Base.insert_by stateful_core.Base.sort_by stateful_core.Base.text_eq
    stateful_core.Base.text_le stateful_core.Base.is_whitespace stateful_core.Base.trim
    stateful_core.Base.strip_prefix stateful_core.Coordination.task_is_terminal
    stateful_core.Coordination.default_settings stateful_core.Coordination.validate_settings
    stateful_core.Coordination.kind_eq stateful_core.Coordination.key_eq
    stateful_core.Coordination.has_matching_resource_kind
    stateful_core.Coordination.lease_is_terminal stateful_core.Coordination.lease_can_transition
    stateful_core.Coordination.read_can_transition stateful_core.Coordination.write_is_terminal
    stateful_core.Coordination.write_can_transition stateful_core.Path.portable
    stateful_core.Path.cons_segment stateful_core.Path.split_slash stateful_core.Path.join_slash
    stateful_core.Path.is_skipped stateful_core.Path.is_parent stateful_core.Path.pop
    stateful_core.Path.fold_segments stateful_core.Path.normalized_segments
    stateful_core.Path.normalize_relative_path stateful_core.Path.normalize_directory_path
    stateful_core.Path.normalized_relative_path_is_empty stateful_core.Path.pop_checked
    stateful_core.Path.push_segment stateful_core.Path.components stateful_core.Path.is_absolute
    stateful_core.Path.joined stateful_core.Path.operation_path stateful_core.Resource.kind_le
    stateful_core.Resource.key_le stateful_core.Resource.same_identity
    stateful_core.Resource.dedup_after stateful_core.Resource.dedup stateful_core.Resource.new_set
    stateful_core.Resource.starts_with_slash stateful_core.Resource.suffix_is_child
    stateful_core.Resource.path_contains stateful_core.Resource.resource_keys_overlap
    stateful_core.Resource.sets_overlap stateful_core.Resource.Observation.object_kind_eq
    stateful_core.Resource.Observation.option_bool_eq
    stateful_core.Resource.Observation.object_state_eq
    stateful_core.Resource.Observation.entry_state_eq
    stateful_core.Resource.Observation.tree_state_eq stateful_core.Resource.Observation.observed_eq
    stateful_core.Resource.Observation.observation_eq stateful_core.Resource.Observation.same_state
    stateful_core.Resource.Observation.observations_eq stateful_core.Resource.Observation.is_absent
    stateful_core.Resource.Observation.state_json_eq
    stateful_core.Resource.Observation.json_same_state
    stateful_core.Resource.Observation.observations_same_state
    stateful_core.Resource.Operation.decimal_onto stateful_core.Resource.Operation.decimal
    stateful_core.Resource.Operation.object_id stateful_core.Resource.Operation.directory_id
    stateful_core.Resource.Operation.starts_with stateful_core.Resource.Operation.ends_with
    stateful_core.Resource.Operation.last_segment stateful_core.Resource.Operation.basename
    stateful_core.Resource.Operation.is_at stateful_core.Resource.Operation.shape_found
    stateful_core.Resource.Operation.in_shape stateful_core.Resource.Operation.check_each
    stateful_core.Resource.Operation.one_workspace stateful_core.Resource.Operation.require_shape
    stateful_core.Resource.Operation.the_only stateful_core.Resource.Operation.observation_at
    stateful_core.Resource.Operation.validate_entry_resource
    stateful_core.Resource.Operation.present_entry
    stateful_core.Resource.Operation.validate_present_entry
    stateful_core.Resource.Operation.present_object
    stateful_core.Resource.Operation.validate_target_from_set
    stateful_core.Resource.Operation.validate_target stateful_core.Resource.Operation.target_kind
    stateful_core.Resource.Operation.absent_entry
    stateful_core.Resource.Operation.validate_absent_entry_from_set
    stateful_core.Resource.Operation.validate_absent_entry stateful_core.Resource.Start.path_or_fail
    stateful_core.Resource.Start.checked_path stateful_core.Resource.Start.tree_view
    stateful_core.Resource.Start.tree_of
    stateful_core.Resource.Start.validate_directory_tree_from_set
    stateful_core.Resource.Start.validate_directory_tree stateful_core.Resource.Start.empty_matches
    stateful_core.Resource.Start.entry_matches_tree stateful_core.Resource.Start.validate_directory
    stateful_core.Resource.Start.normalize_each stateful_core.Resource.Start.normalized_unique_paths
    stateful_core.Resource.Start.tracked_present stateful_core.Resource.Start.tracked_states
    stateful_core.Resource.Start.tracked_shape stateful_core.Resource.Start.validate_tracked
    stateful_core.Resource.Start.validate_structured_commit_start
    stateful_core.Resource.Start.start_two_paths
    stateful_core.Resource.Start.validate_operation_start stateful_core.Store.Audit.audit_row
    stateful_core.Store.Audit.append_audit stateful_core.Store.Complete.write_result_name
    stateful_core.Store.Complete.invalidate_uncertain_write
    stateful_core.Store.Complete.write_uncertain stateful_core.Store.Complete.write_succeeded
    stateful_core.Store.Complete.settle stateful_core.Store.Complete.close_attempt
    stateful_core.Store.Complete.own_evidence stateful_core.Store.Complete.free_slots
    stateful_core.Store.Complete.delete_batch stateful_core.Store.Complete.drain_batch
    stateful_core.Store.Complete.settle_lease stateful_core.Store.Complete.end_draining
    stateful_core.Store.Complete.finish_draining stateful_core.Store.Complete.finish_draining_task
    stateful_core.Store.Complete.complete_attempt
    stateful_core.Store.Complete.write_complete_command stateful_core.Store.Context.is_blank
    stateful_core.Store.Context.validate_context stateful_core.Store.Context.at_task
    stateful_core.Store.Context.find_task stateful_core.Store.Context.task_row
    stateful_core.Store.Context.task_status stateful_core.Store.Context.settings_message
    stateful_core.Store.Context.check_settings
    stateful_core.Store.Context.task_coordination_settings
    stateful_core.Store.Context.require_task_owner stateful_core.Store.Evidence.revokes
    stateful_core.Store.Evidence.revoke_row stateful_core.Store.Evidence.revoke_rows
    stateful_core.Store.Evidence.revoke_overlapping stateful_core.Store.Evidence.revoke_all
    stateful_core.Store.Evidence.peer_write_in_flight stateful_core.Store.Evidence.upsert_intent
    stateful_core.Store.Evidence.no_newer_read stateful_core.Store.Evidence.insert_evidence
    stateful_core.Store.Evidence.own_write_row
    stateful_core.Store.Evidence.insert_own_write_evidence stateful_core.Store.Evidence.read_since
    stateful_core.Store.Evidence.evidences stateful_core.Store.Evidence.has_current_evidence
    stateful_core.Store.Evidence.has_historical_evidence stateful_core.Store.Leases.lease_resources
    stateful_core.Store.Leases.in_flight_slots stateful_core.Store.Leases.view_of
    stateful_core.Store.Leases.active_task_lease stateful_core.Store.Leases.agent_slot_occupied
    stateful_core.Store.Leases.set_insert stateful_core.Store.Leases.insert_names
    stateful_core.Store.Leases.conflicting_owners
    stateful_core.Store.Leases.queued_conflicting_owners stateful_core.Store.Leases.delete_leases
    stateful_core.Store.Leases.drain_leases stateful_core.Store.Leases.release_all_task_leases
    stateful_core.Store.Leases.in_flight_count stateful_core.Store.Leases.task_in_flight_count
    stateful_core.Store.Leases.insert_lease_resource stateful_core.Store.Leases.mode_of
    stateful_core.Store.Leases.insert_lease stateful_core.Store.Leases.insert_active_lease
    stateful_core.Store.Leases.new_lease stateful_core.Store.Leases.renewed_version
    stateful_core.Store.Leases.grow_lease stateful_core.Store.Leases.ensure_active_lease
    stateful_core.Store.Observations.check_observation stateful_core.Store.Observations.check_all
    stateful_core.Store.Observations.canonicalize_observations
    stateful_core.Store.Observations.find_resource stateful_core.Store.Observations.advance_resource
    stateful_core.Store.Observations.add_resource stateful_core.Store.Observations.add_alias
    stateful_core.Store.Observations.next_generation stateful_core.Store.Observations.sync_row
    stateful_core.Store.Observations.sync_observation stateful_core.Store.Observations.sync_all
    stateful_core.Store.Observations.sync_observations
    stateful_core.Store.Observations.current_observation
    stateful_core.Store.Observations.current_all
    stateful_core.Store.Observations.current_observations
    stateful_core.Store.Observations.merge_each stateful_core.Store.Observations.merge_resource_keys
    stateful_core.Store.Queue.expire_offers stateful_core.Store.Queue.request_resources
    stateful_core.Store.Queue.pending_of stateful_core.Store.Queue.pending_task_request
    stateful_core.Store.Queue.lease_request_row stateful_core.Store.Queue.supersede
    stateful_core.Store.Queue.new_request stateful_core.Store.Queue.insert_request
    stateful_core.Store.Queue.enqueue_request stateful_core.Store.Queue.join_task
    stateful_core.Store.Queue.join_tasks stateful_core.Store.Queue.waiters
    stateful_core.Store.Queue.expire_request stateful_core.Store.Queue.offer_request
    stateful_core.Store.Queue.request_blocked stateful_core.Store.Queue.make_offer
    stateful_core.Store.Queue.expire_waiter stateful_core.Store.Queue.try_waiter
    stateful_core.Store.Queue.time_waiter stateful_core.Store.Queue.promote_one
    stateful_core.Store.Queue.promote_each stateful_core.Store.Queue.promote_waiters
    stateful_core.Store.Time.parsed_timestamp stateful_core.Store.Time.parse_timestamp
    stateful_core.Store.Time.formatted stateful_core.Store.Time.format_timestamp
    stateful_core.Store.Time.setting_seconds stateful_core.Store.Time.validate_timestamp
    stateful_core.Store.Time.validate_future stateful_core.Store.Time.validate_future_window
    stateful_core.Store.Tx.continue_with stateful_core.Store.Tx.◌>>=◌
    stateful_core.Store.Tx.for_each stateful_core.Store.Tx.checked_suc
    stateful_core.Store.Tx.new_uuid stateful_core.Resource.Transition.require_same_resource
    stateful_core.Resource.Transition.require_directory_identity
    stateful_core.Resource.Transition.transition_two_paths
    stateful_core.Resource.Transition.transition_hardlink
    stateful_core.Resource.Transition.validate_structured_commit_transition
    stateful_core.Resource.Transition.validate_expected_transition
    stateful_core.Resource.Transition.observations_equal_as_set
    stateful_core.Resource.Transition.validate_operation_transition
completes_write = refl

write_complete_command-executing_example :
    (attempt : WriteRow) × (find
        (attempt_of_task later failed_write.attempt_id)
        after_prepare.writes
      ≡ some attempt)
    × (attempt.invocation_id ≡ failed_write.invocation_id)
    × (attempt.permit_id ≡ failed_write.permit_id)
    × (is_executing attempt.status ≡ true)
write_complete_command-executing_example =
    write_complete_command-executing env later failed_write after_prepare failed_result completed_db
      completes_write
