-- ===== src/Examples/Witnesses.antt =====
-- The theorems at concrete inputs.
use stateful_core.Base.{
  ℕ, Text, text, Option, none, some, List, [], ◌∷◌, ◌≡◌, ◌↔◌, refl, inl, inr, true, false, ◌≤◌, ◌<◌,
  ◌*◌, arith, ◌⊎◌, ◌++◌,
}
use stateful_core.Coordination.{
  default_settings, validate_settings, LeaseState, WriteAttemptStatus, lease_is_terminal,
  lease_can_transition, write_is_terminal, write_can_transition,
}
use stateful_core.Coordination.Settings.{validate_settings_iff}
use stateful_core.Coordination.Transitions.{lease_is_terminal_iff, write_is_terminal_iff}
use stateful_core.Resource.{path_contains, resource_keys_overlap}
use stateful_core.Resource.Overlap.{
  path_contains_iff, resource_keys_overlap_refl, resource_keys_overlap_comm,
}
use stateful_core.Store.Models.{Response, WritePrepareResult, ReadResultStatus}
use stateful_core.Coordination.{TaskStatus, ResourceKey, entry}
use stateful_core.Store.Tables.{empty_db, LeaseRow, LeaseResourceRow, LeaseMode, ActiveState}
use stateful_core.Store.Tx.{ok, err, idempotency_mismatch}
use stateful_core.Store.Accepted.{accepted_command, command_kind}
use stateful_core.Store.Accepted.Replay.{accepted_command-again, accepted_command-mismatch}
use stateful_core.Store.Expiry.{task_due, lease_due, expire_tasks_and_leases}
use stateful_core.Store.Expiry.Done.{expire_tasks_and_leases-none_due}
use stateful_core.Store.Tables.{TaskRow}
use stateful_core.Base.{Mem}
use stateful_core.Path.{
  normalized_segments, portable, split_slash, fold_segments, is_skipped, is_parent,
}
use stateful_core.Path.Segments.{has_slash, normalized_segments-plain}
use stateful_core.Base.{◌+◌}
use stateful_core.Store.Time.{validate_future_window, nanoseconds}
use stateful_core.Store.Time.Window.{validate_future_window_iff}
use stateful_core.Store.Exclusion.{Exclusive}
use stateful_core.Store.Exclusion.Invariant.{Reached, overlap-one_task, Reached-Exclusive}
use stateful_core.Examples.Scenario.{
  env, context, entry_a, start_task, start_read, complete_read, prepare_create, run,
}
use stateful_core.Examples.States.{after_start, after_read_start, after_read, after_prepare}

validate_settings_iff_example :
    (validate_settings default_settings ≡ none)
    ↔ ((0 < 1) × (0 < 60) × (0 < 120) × (3 * 1 ≤ 5) × (5 < 3 * 60))
unfolding default_settings
validate_settings_iff_example = validate_settings_iff default_settings

lease_is_terminal_iff_example :
    (lease_is_terminal LeaseState.released ≡ true)
    ↔ ((t : LeaseState) → lease_can_transition LeaseState.released t ≡ false)
lease_is_terminal_iff_example = lease_is_terminal_iff LeaseState.released

write_is_terminal_iff_example :
    (write_is_terminal WriteAttemptStatus.in_flight ≡ true)
    ↔ ((t : WriteAttemptStatus) → write_can_transition WriteAttemptStatus.in_flight t ≡ false)
write_is_terminal_iff_example = write_is_terminal_iff WriteAttemptStatus.in_flight

path_contains_iff_example :
    (path_contains (text "src") (text "src/lib.rs") ≡ true)
    ↔ ((text "src" ≡ []) ⊎ ((rest : Text) × (text "src/lib.rs" ≡ text "src" ++ b'/' ∷ rest)))
path_contains_iff_example = path_contains_iff (text "src") (text "src/lib.rs")

abbrev key_b : ResourceKey
key_b = record {
  workspace_id = text "w";
  kind = entry;
  resource_id = text "entry:1:b";
  canonical_path = text "b";
}

resource_keys_overlap_comm_example :
    resource_keys_overlap entry_a.resource key_b ≡ resource_keys_overlap key_b entry_a.resource
resource_keys_overlap_comm_example = resource_keys_overlap_comm entry_a.resource key_b

abbrev prepared : Response
prepared = Response.prepare (WritePrepareResult.ready (1008 ∷ []) (1009 ∷ []) ((1007 ∷ []) ∷ []))

write_ran :
    accepted_command env (context (text "4") (text "t") 13) prepare_create after_read
    ≡ ok (prepared, after_prepare)
unfolding run
write_ran = refl

accepted_command-again_example :
    accepted_command env (context (text "4") (text "t") 13) prepare_create after_prepare
    ≡ ok (prepared, after_prepare)
accepted_command-again_example =
    accepted_command-again env (context (text "4") (text "t") 13) prepare_create prepared after_read
      after_prepare write_ran

accepted_command-mismatch_example :
    accepted_command env (context (text "4") (text "t") 13) start_read after_prepare
    ≡ err idempotency_mismatch
unfolding stateful_core.Base.text_eq command_kind
accepted_command-mismatch_example =
    accepted_command-mismatch env (context (text "4") (text "t") 13) prepare_create start_read
      prepared after_read after_prepare write_ran (inl refl)

start_ran :
    accepted_command env (context (text "1") (text "t") 10) start_task empty_db
    ≡ ok (
      Response.task (record { task_id = text "t"; status = TaskStatus.active; draining = false }),
      after_start,
    )
unfolding run
start_ran = refl

read_start_ran :
    accepted_command env (context (text "2") (text "t") 11) start_read after_start
    ≡ ok (
      Response.read
          (record { read_id = text "r"; status = ReadResultStatus.started; evidence_id = none }),
      after_read_start,
    )
unfolding run
read_start_ran = refl

read_ran :
    accepted_command env (context (text "3") (text "t") 12) complete_read after_read_start
    ≡ ok (
      Response.read (record {
        read_id = text "r";
        status = ReadResultStatus.completed;
        evidence_id = some (1004 ∷ []);
      }),
      after_read,
    )
unfolding run
read_ran = refl

reached : Reached env after_prepare
reached =
    Reached.command _ _ _ _ _
      (Reached.command _ _ _ _ _
        (Reached.command _ _ _ _ _ (Reached.command _ _ _ _ _ Reached.start start_ran)
          read_start_ran)
        read_ran)
      write_ran

abbrev the_lease : LeaseRow
the_lease = record {
  batch_id = 1007 ∷ [];
  workspace_id = text "w";
  task_id = text "t";
  agent_id = text "t";
  mode = LeaseMode.exclusive_write;
  state = ActiveState.active;
  version = 1;
  acquired_at = 13 ∷ [];
  expires_at = 70 ∷ [];
  release_pending = false;
}

abbrev the_resource : LeaseResourceRow
the_resource = record {
  batch_id = 1007 ∷ [];
  resource = entry_a.resource;
  acquired_generation = 1;
  in_flight_attempt_id = some (1008 ∷ []);
}

overlap-one_task_example :
    (the_lease.workspace_id ≡ the_lease.workspace_id) × (the_lease.task_id ≡ the_lease.task_id)
overlap-one_task_example =
    overlap-one_task env after_prepare the_lease the_lease the_resource the_resource reached
      (inl refl) (inl refl) (inl refl) (inl refl) refl refl
      (resource_keys_overlap_refl the_resource.resource)

Reached-Exclusive_example : Exclusive after_prepare
Reached-Exclusive_example = Reached-Exclusive env after_prepare reached

expire_tasks_and_leases-none_due_example :
    ((t : TaskRow)
      → Mem t (expire_tasks_and_leases (95 ∷ []) after_prepare).tasks
      → task_due (95 ∷ []) t ≡ false)
    × ((l : LeaseRow)
        → Mem l (expire_tasks_and_leases (95 ∷ []) after_prepare).leases
        → lease_due (95 ∷ []) l ≡ false)
expire_tasks_and_leases-none_due_example = expire_tasks_and_leases-none_due (95 ∷ []) after_prepare

normalized_segments-plain_example :
    (is_skipped (text "b") ≡ false)
    × (is_parent (text "b") ≡ false)
    × (has_slash (text "b") ≡ false)
unfolding normalized_segments portable split_slash fold_segments is_skipped is_parent
    stateful_core.Base.text_eq
normalized_segments-plain_example =
    normalized_segments-plain (text "./a/../b") (text "b") (inl refl)

validate_future_window_iff_example :
    (validate_future_window env (text "1") (text "2") 5 "expires_at" empty_db ≡ ok (tt, empty_db))
    ↔ ((observed : ℕ) × (expires : ℕ) × (env.parse_rfc3339 (text "1") ≡ some observed)
        × (env.parse_rfc3339 (text "2") ≡ some expires)
        × (observed < expires)
        × (expires ≤ observed + nanoseconds 5))
validate_future_window_iff_example =
    validate_future_window_iff env (text "1") (text "2") 5 "expires_at" empty_db
