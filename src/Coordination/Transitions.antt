-- ===== src/Coordination/Transitions.antt =====
-- The transition tables of crates/stateful-core/src/coordination.rs as a whole.
use stateful_core.Base.{true, false, ◌≡◌, ◌↔◌, arith}
use stateful_core.Coordination.{
  LeaseState, lease_is_terminal, lease_can_transition, WriteAttemptStatus, write_is_terminal,
  write_can_transition,
}

lease_terminal_stays :
    (s t : LeaseState) → lease_is_terminal s ≡ true → lease_can_transition s t ≡ false
unfolding lease_is_terminal lease_can_transition
lease_terminal_stays s t h = ground arith

lease_stuck :
    (s : LeaseState)
    → ((t : LeaseState) → lease_can_transition s t ≡ false)
    → lease_is_terminal s ≡ true
unfolding lease_is_terminal lease_can_transition
lease_stuck s h =
    ground (
      arith,
      h LeaseState.offered,
      h LeaseState.active,
      h LeaseState.draining,
      h LeaseState.released,
    )

-- A lease's state is terminal exactly when no transition leaves it.
pub lease_is_terminal_iff :
    (s : LeaseState)
    → (lease_is_terminal s ≡ true) ↔ ((t : LeaseState) → lease_can_transition s t ≡ false)
lease_is_terminal_iff s = (λ h t. lease_terminal_stays s t h, lease_stuck s)

write_terminal_stays :
    (s t : WriteAttemptStatus) → write_is_terminal s ≡ true → write_can_transition s t ≡ false
unfolding write_is_terminal write_can_transition
write_terminal_stays s t h = ground arith

write_stuck :
    (s : WriteAttemptStatus)
    → ((t : WriteAttemptStatus) → write_can_transition s t ≡ false)
    → write_is_terminal s ≡ true
unfolding write_is_terminal write_can_transition
write_stuck s h = ground (arith, h WriteAttemptStatus.in_flight, h WriteAttemptStatus.succeeded)

-- A write attempt's status is terminal exactly when no transition leaves it.
pub write_is_terminal_iff :
    (s : WriteAttemptStatus)
    → (write_is_terminal s ≡ true) ↔ ((t : WriteAttemptStatus) → write_can_transition s t ≡ false)
write_is_terminal_iff s = (λ h t. write_terminal_stays s t h, write_stuck s)
