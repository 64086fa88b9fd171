-- ===== src/Examples/Scenario.antt =====
-- A task that reads an absent entry and takes the lease to create it, and a task that waits.
use stateful_core.Base.{ℕ, ◌+◌, Text, text, Option, none, some, List, [], ◌∷◌, Bool, true, false}
use stateful_core.Coordination.{
  default_settings, entry, ResourceKey, Observed, EntryState, ResourceObservation,
  MutationOperation,
}
use stateful_core.Store.Models.{CommandContext, Command, Response}
use stateful_core.Store.Tables.{Db}
use stateful_core.Store.Accepted.{accepted_command, command_kind}
use stateful_core.Store.Tx.{Env, Result, ok, err}

-- Times are one number, identifiers count from 1000.
abbrev pub parse_one : Text → Option ℕ
parse_one (n ∷ []) = some n
parse_one _ = none

abbrev pub env : Env
env = record {
  uuid = λ n. (1000 + n) ∷ [];
  parse_rfc3339 = parse_one;
  format_rfc3339 = λ n. some (n ∷ []);
  last_instant = 631107417600000000000;
  payload_digest = command_kind;
}

abbrev pub context : Text → Text → ℕ → CommandContext
context request agent now = record {
  request_id = request;
  task_id = agent;
  agent_id = agent;
  workspace_id = text "w";
  observed_at = now ∷ [];
}

abbrev pub entry_a : ResourceObservation
entry_a = record {
  resource = record {
    workspace_id = text "w";
    kind = entry;
    resource_id = text "entry:1:a";
    canonical_path = text "a";
  };
  observed = Observed.entry EntryState.absent;
  generation = 0;
}

abbrev pub start_task : Command
start_task = Command.task_start (record {
  next_action = text "go";
  settings = default_settings;
  expires_at = 90 ∷ [];
  runtime_process = none;
})

abbrev pub start_read : Command
start_read =
    Command.read_start
      (record { read_id = text "r"; invocation_id = text "i"; resources = entry_a ∷ [] })

abbrev pub complete_read : Command
complete_read = Command.read_complete (record {
  read_id = text "r";
  invocation_id = text "i";
  resources = entry_a ∷ [];
  terminal_success = true;
  complete = true;
  stable = true;
  exact = true;
})

abbrev pub prepare_create : Command
prepare_create = Command.write_prepare (record {
  invocation_id = text "j";
  operation = MutationOperation.create (text "a");
  current = entry_a ∷ [];
  request_expires_at = 80 ∷ [];
  lease_expires_at = 70 ∷ [];
  attempt_deadline = 60 ∷ [];
})

unfoldable pub run : CommandContext → Command → Db → Result (Response × Db)
unfolding stateful_core.Base.insert_by stateful_core.Base.sort_by stateful_core.Base.text_eq
    stateful_core.Base.text_le stateful_core.Base.is_whitespace stateful_core.Base.trim
    stateful_core.Base.strip_prefix stateful_core.Coordination.task_is_terminal
    stateful_core.Coordination.default_settings stateful_core.Coordination.validate_settings
    stateful_core.Coordination.kind_eq stateful_core.Coordination.key_eq
    stateful_core.Coordination.has_matching_resource_kind
    stateful_core.Coordination.lease_is_terminal stateful_core.Coordination.lease_can_transition
    stateful_core.Coordination.read_can_transition stateful_core.Coordination.write_is_terminal
    stateful_core.Coordination.write_can_transition stateful_core.Path.portable
    stateful_core.Path.cons_segment stateful_core.Path.split_slash stateful_core.Path.join_slash
    stateful_core.Path.is_skipped stateful_core.Path.is_parent stateful_core.Path.pop
    stateful_core.Path.fold_segments stateful_core.Path.normalized_segments
    stateful_core.Path.normalize_relative_path stateful_core.Path.normalize_directory_path
    stateful_core.Path.normalized_relative_path_is_empty stateful_core.Path.pop_checked
    stateful_core.Path.push_segment stateful_core.Path.components stateful_core.Path.is_absolute
    stateful_core.Path.joined stateful_core.Path.operation_path stateful_core.Resource.kind_le
    stateful_core.Resource.key_le stateful_core.Resource.same_identity
    stateful_core.Resource.dedup_after stateful_core.Resource.dedup stateful_core.Resource.new_set
    stateful_core.Resource.starts_with_slash stateful_core.Resource.suffix_is_child
    stateful_core.Resource.path_contains stateful_core.Resource.resource_keys_overlap
    stateful_core.Resource.sets_overlap stateful_core.Resource.Observation.object_kind_eq
    stateful_core.Resource.Observation.option_bool_eq
    stateful_core.Resource.Observation.object_state_eq
    stateful_core.Resource.Observation.entry_state_eq
    stateful_core.Resource.Observation.tree_state_eq stateful_core.Resource.Observation.observed_eq
    stateful_core.Resource.Observation.observation_eq stateful_core.Resource.Observation.same_state
    stateful_core.Resource.Observation.observations_eq stateful_core.Resource.Observation.is_absent
    stateful_core.Resource.Observation.state_json_eq
    stateful_core.Resource.Observation.json_same_state
    stateful_core.Resource.Observation.observations_same_state
    stateful_core.Resource.Operation.decimal_onto stateful_core.Resource.Operation.decimal
    stateful_core.Resource.Operation.object_id stateful_core.Resource.Operation.directory_id
    stateful_core.Resource.Operation.starts_with stateful_core.Resource.Operation.ends_with
    stateful_core.Resource.Operation.last_segment stateful_core.Resource.Operation.basename
    stateful_core.Resource.Operation.is_at stateful_core.Resource.Operation.shape_found
    stateful_core.Resource.Operation.in_shape stateful_core.Resource.Operation.check_each
    stateful_core.Resource.Operation.one_workspace stateful_core.Resource.Operation.require_shape
    stateful_core.Resource.Operation.the_only stateful_core.Resource.Operation.observation_at
    stateful_core.Resource.Operation.validate_entry_resource
    stateful_core.Resource.Operation.present_entry
    stateful_core.Resource.Operation.validate_present_entry
    stateful_core.Resource.Operation.present_object
    stateful_core.Resource.Operation.validate_target_from_set
    stateful_core.Resource.Operation.validate_target stateful_core.Resource.Operation.target_kind
    stateful_core.Resource.Operation.absent_entry
    stateful_core.Resource.Operation.validate_absent_entry_from_set
    stateful_core.Resource.Operation.validate_absent_entry stateful_core.Resource.Start.path_or_fail
    stateful_core.Resource.Start.checked_path stateful_core.Resource.Start.tree_view
    stateful_core.Resource.Start.tree_of
    stateful_core.Resource.Start.validate_directory_tree_from_set
    stateful_core.Resource.Start.validate_directory_tree stateful_core.Resource.Start.empty_matches
    stateful_core.Resource.Start.entry_matches_tree stateful_core.Resource.Start.validate_directory
    stateful_core.Resource.Start.normalize_each stateful_core.Resource.Start.normalized_unique_paths
    stateful_core.Resource.Start.tracked_present stateful_core.Resource.Start.tracked_states
    stateful_core.Resource.Start.tracked_shape stateful_core.Resource.Start.validate_tracked
    stateful_core.Resource.Start.validate_structured_commit_start
    stateful_core.Resource.Start.start_two_paths
    stateful_core.Resource.Start.validate_operation_start stateful_core.Store.Accepted.command_kind
    stateful_core.Store.Accepted.respond stateful_core.Store.Accepted.operation
    stateful_core.Store.Accepted.find_receipt stateful_core.Store.Accepted.mismatches
    stateful_core.Store.Accepted.event_row stateful_core.Store.Accepted.receipt_row
    stateful_core.Store.Accepted.journal stateful_core.Store.Accepted.record_command
    stateful_core.Store.Accepted.run_command stateful_core.Store.Accepted.replay_or_run
    stateful_core.Store.Accepted.accepted_command stateful_core.Store.Activate.mark_activated
    stateful_core.Store.Activate.commit_activation stateful_core.Store.Activate.activate_against
    stateful_core.Store.Activate.activate_if_clear stateful_core.Store.Activate.activate_resources
    stateful_core.Store.Activate.try_activation stateful_core.Store.Activate.activate_request
    stateful_core.Store.Activate.activate_row stateful_core.Store.Activate.lease_activate
    stateful_core.Store.Activate.release_now stateful_core.Store.Activate.release_later
    stateful_core.Store.Activate.lease_release_command stateful_core.Store.Attempt.slot_taken
    stateful_core.Store.Attempt.check_slot stateful_core.Store.Attempt.acquire_slot
    stateful_core.Store.Attempt.new_write stateful_core.Store.Attempt.prepare_write_attempt
    stateful_core.Store.Audit.audit_row stateful_core.Store.Audit.append_audit
    stateful_core.Store.Complete.write_result_name
    stateful_core.Store.Complete.invalidate_uncertain_write
    stateful_core.Store.Complete.write_uncertain stateful_core.Store.Complete.write_succeeded
    stateful_core.Store.Complete.settle stateful_core.Store.Complete.close_attempt
    stateful_core.Store.Complete.own_evidence stateful_core.Store.Complete.free_slots
    stateful_core.Store.Complete.delete_batch stateful_core.Store.Complete.drain_batch
    stateful_core.Store.Complete.settle_lease stateful_core.Store.Complete.end_draining
    stateful_core.Store.Complete.finish_draining stateful_core.Store.Complete.finish_draining_task
    stateful_core.Store.Complete.complete_attempt
    stateful_core.Store.Complete.write_complete_command stateful_core.Store.Context.is_blank
    stateful_core.Store.Context.validate_context stateful_core.Store.Context.at_task
    stateful_core.Store.Context.find_task stateful_core.Store.Context.task_row
    stateful_core.Store.Context.task_status stateful_core.Store.Context.settings_message
    stateful_core.Store.Context.check_settings
    stateful_core.Store.Context.task_coordination_settings
    stateful_core.Store.Context.require_task_owner stateful_core.Store.Evidence.revokes
    stateful_core.Store.Evidence.revoke_row stateful_core.Store.Evidence.revoke_rows
    stateful_core.Store.Evidence.revoke_overlapping stateful_core.Store.Evidence.revoke_all
    stateful_core.Store.Evidence.peer_write_in_flight stateful_core.Store.Evidence.upsert_intent
    stateful_core.Store.Evidence.no_newer_read stateful_core.Store.Evidence.insert_evidence
    stateful_core.Store.Evidence.own_write_row
    stateful_core.Store.Evidence.insert_own_write_evidence stateful_core.Store.Evidence.read_since
    stateful_core.Store.Evidence.evidences stateful_core.Store.Evidence.has_current_evidence
    stateful_core.Store.Evidence.has_historical_evidence stateful_core.Store.Expiry.expire_task
    stateful_core.Store.Expiry.expire_tasks stateful_core.Store.Expiry.expire_lease
    stateful_core.Store.Expiry.expire_leases stateful_core.Store.Expiry.expire_tasks_and_leases
    stateful_core.Store.Leases.lease_resources stateful_core.Store.Leases.in_flight_slots
    stateful_core.Store.Leases.view_of stateful_core.Store.Leases.active_task_lease
    stateful_core.Store.Leases.agent_slot_occupied stateful_core.Store.Leases.set_insert
    stateful_core.Store.Leases.insert_names stateful_core.Store.Leases.conflicting_owners
    stateful_core.Store.Leases.queued_conflicting_owners stateful_core.Store.Leases.delete_leases
    stateful_core.Store.Leases.drain_leases stateful_core.Store.Leases.release_all_task_leases
    stateful_core.Store.Leases.in_flight_count stateful_core.Store.Leases.task_in_flight_count
    stateful_core.Store.Leases.insert_lease_resource stateful_core.Store.Leases.mode_of
    stateful_core.Store.Leases.insert_lease stateful_core.Store.Leases.insert_active_lease
    stateful_core.Store.Leases.new_lease stateful_core.Store.Leases.renewed_version
    stateful_core.Store.Leases.grow_lease stateful_core.Store.Leases.ensure_active_lease
    stateful_core.Store.Observations.check_observation stateful_core.Store.Observations.check_all
    stateful_core.Store.Observations.canonicalize_observations
    stateful_core.Store.Observations.find_resource stateful_core.Store.Observations.advance_resource
    stateful_core.Store.Observations.add_resource stateful_core.Store.Observations.add_alias
    stateful_core.Store.Observations.next_generation stateful_core.Store.Observations.sync_row
    stateful_core.Store.Observations.sync_observation stateful_core.Store.Observations.sync_all
    stateful_core.Store.Observations.sync_observations
    stateful_core.Store.Observations.current_observation
    stateful_core.Store.Observations.current_all
    stateful_core.Store.Observations.current_observations
    stateful_core.Store.Observations.merge_each stateful_core.Store.Observations.merge_resource_keys
    stateful_core.Store.Prepare.error_message stateful_core.Store.Prepare.or_invalid_input
    stateful_core.Store.Prepare.merge_pending stateful_core.Store.Prepare.resource_union
    stateful_core.Store.Prepare.keys_eq stateful_core.Store.Prepare.queue_up
    stateful_core.Store.Prepare.reuse_or_queue stateful_core.Store.Prepare.queue_for
    stateful_core.Store.Prepare.blocked_write stateful_core.Store.Prepare.grant_write
    stateful_core.Store.Prepare.free_write stateful_core.Store.Prepare.check_prepare_times
    stateful_core.Store.Prepare.read_demand stateful_core.Store.Prepare.decide_write
    stateful_core.Store.Prepare.write_prepare stateful_core.Store.Queue.expire_offers
    stateful_core.Store.Queue.request_resources stateful_core.Store.Queue.pending_of
    stateful_core.Store.Queue.pending_task_request stateful_core.Store.Queue.lease_request_row
    stateful_core.Store.Queue.supersede stateful_core.Store.Queue.new_request
    stateful_core.Store.Queue.insert_request stateful_core.Store.Queue.enqueue_request
    stateful_core.Store.Queue.join_task stateful_core.Store.Queue.join_tasks
    stateful_core.Store.Queue.waiters stateful_core.Store.Queue.expire_request
    stateful_core.Store.Queue.offer_request stateful_core.Store.Queue.request_blocked
    stateful_core.Store.Queue.make_offer stateful_core.Store.Queue.expire_waiter
    stateful_core.Store.Queue.try_waiter stateful_core.Store.Queue.time_waiter
    stateful_core.Store.Queue.promote_one stateful_core.Store.Queue.promote_each
    stateful_core.Store.Queue.promote_waiters stateful_core.Store.Reads.new_read
    stateful_core.Store.Reads.read_start_command stateful_core.Store.Reads.transition_read_attempt
    stateful_core.Store.Reads.fail_read stateful_core.Store.Reads.finish_read
    stateful_core.Store.Reads.compare_read stateful_core.Store.Reads.is_eligible
    stateful_core.Store.Reads.read_complete_command stateful_core.Store.Tasks.new_task
    stateful_core.Store.Tasks.upsert_process stateful_core.Store.Tasks.register_process
    stateful_core.Store.Tasks.create_task stateful_core.Store.Tasks.start_or_resume
    stateful_core.Store.Tasks.task_start stateful_core.Store.Tasks.beat_task
    stateful_core.Store.Tasks.beat_process stateful_core.Store.Tasks.task_heartbeat_command
    stateful_core.Store.Tasks.begin_end stateful_core.Store.Tasks.update_task_terminal
    stateful_core.Store.Tasks.finish_end stateful_core.Store.Tasks.defer_end
    stateful_core.Store.Tasks.end_open_task stateful_core.Store.Tasks.end_task
    stateful_core.Store.Time.parsed_timestamp stateful_core.Store.Time.parse_timestamp
    stateful_core.Store.Time.formatted stateful_core.Store.Time.format_timestamp
    stateful_core.Store.Time.setting_seconds stateful_core.Store.Time.validate_timestamp
    stateful_core.Store.Time.validate_future stateful_core.Store.Time.validate_future_window
    stateful_core.Store.Tx.continue_with stateful_core.Store.Tx.◌>>=◌
    stateful_core.Store.Tx.for_each stateful_core.Store.Tx.checked_suc
    stateful_core.Store.Tx.new_uuid
run ctx c db = accepted_command env ctx c db
