-- ===== src/Coordination.antt =====
-- crates/stateful-core/src/coordination.rs: the vocabulary of the lease protocol (task, lease and
-- attempt states, resource keys and observations, operations) and its transition tables.
pub mod Transitions
pub mod Settings
use stateful_core.Base.{
  ℕ, ◌/◌, Text, text, Bool, true, false, ◌&&◌, ◌||◌, Option, none, some, List, ◌==◌, ltb, leb,
  if◌then◌else◌, text_eq,
}
use Prim.Native.String.{String}

pub data TaskStatus : Type 0 where
  active draining completed failed cancelled : TaskStatus

-- `TaskStatus::is_terminal`.
unfoldable pub task_is_terminal : TaskStatus → Bool
task_is_terminal completed = true
task_is_terminal failed = true
task_is_terminal cancelled = true
task_is_terminal _ = false

pub record CoordinationSettings : Type 0 where
  pub heartbeat_interval_seconds : ℕ
  pub inactivity_timeout_seconds : ℕ
  pub lease_expiry_seconds : ℕ
  pub offer_ttl_seconds : ℕ

unfoldable pub default_settings : CoordinationSettings
default_settings = record {
  heartbeat_interval_seconds = 1;
  inactivity_timeout_seconds = 5;
  lease_expiry_seconds = 60;
  offer_ttl_seconds = 120;
}

pub data SettingsError : Type 0 where
  not_positive bad_timing : SettingsError

-- `CoordinationSettings::validate`; `none` is `Ok(())`.
unfoldable pub validate_settings : CoordinationSettings → Option SettingsError
validate_settings s =
    let inactivity_third = s.inactivity_timeout_seconds / 3 in
    if s.heartbeat_interval_seconds == 0
      || s.inactivity_timeout_seconds == 0
      || s.lease_expiry_seconds == 0
      || s.offer_ttl_seconds == 0
    then some not_positive
    else if ltb inactivity_third s.heartbeat_interval_seconds
        || leb s.lease_expiry_seconds inactivity_third
    then some bad_timing
    else none

pub data ResourceKind : Type 0 where
  object entry directory_tree : ResourceKind

-- `==` on `ResourceKind`.
unfoldable pub kind_eq : ResourceKind → ResourceKind → Bool
kind_eq object object = true
kind_eq entry entry = true
kind_eq directory_tree directory_tree = true
kind_eq _ _ = false

pub record ResourceKey : Type 0 where
  pub workspace_id : Text
  pub kind : ResourceKind
  pub resource_id : Text
  pub canonical_path : Text

-- The derived `==` on `ResourceKey`.
unfoldable pub key_eq : ResourceKey → ResourceKey → Bool
unfolding kind_eq
key_eq a b =
    text_eq a.workspace_id b.workspace_id
    && kind_eq a.kind b.kind
    && text_eq a.resource_id b.resource_id
    && text_eq a.canonical_path b.canonical_path

-- `DigestAlgorithm` has the one value BLAKE3, so a `ContentDigest` is its value.
pub record ContentDigest : Type 0 where
  pub value : Text

pub data ObjectKind : Type 0 where
  regular_file directory symlink : ObjectKind

pub data ObjectState : Type 0 where
  absent : ObjectState
  present : (kind : ObjectKind) (blake3 : ContentDigest) (byte_len : ℕ) → ObjectState

pub data EntryState : Type 0 where
  absent : EntryState
  present : (kind : ObjectKind) (device inode : ℕ) (empty : Option Bool) → EntryState

pub data DirectoryTreeState : Type 0 where
  absent : DirectoryTreeState
  present : (device inode : ℕ) (snapshot : ContentDigest) (entry_count : ℕ) → DirectoryTreeState

-- What the three constructors of `ResourceObservation` hold in `observed`.
pub data Observed : Type 0 where
  object : ObjectState → Observed
  entry : EntryState → Observed
  directory_tree : DirectoryTreeState → Observed

-- `ResourceObservation`: the constructor is that of `observed`.
pub record ResourceObservation : Type 0 where
  pub resource : ResourceKey
  pub observed : Observed
  pub generation : ℕ

abbrev pub observed_kind : Observed → ResourceKind
observed_kind (Observed.object _) = ResourceKind.object
observed_kind (Observed.entry _) = ResourceKind.entry
observed_kind (Observed.directory_tree _) = ResourceKind.directory_tree

-- `ResourceObservation::has_matching_resource_kind`.
unfoldable pub has_matching_resource_kind : ResourceObservation → Bool
unfolding kind_eq
has_matching_resource_kind o = kind_eq o.resource.kind (observed_kind o.observed)

pub data LeaseState : Type 0 where
  queued offered active draining released expired cancelled superseded : LeaseState

-- `LeaseState::is_terminal`.
unfoldable pub lease_is_terminal : LeaseState → Bool
lease_is_terminal released = true
lease_is_terminal expired = true
lease_is_terminal cancelled = true
lease_is_terminal superseded = true
lease_is_terminal _ = false

-- `LeaseState::can_transition_to`.
unfoldable pub lease_can_transition : LeaseState → LeaseState → Bool
lease_can_transition queued offered = true
lease_can_transition queued cancelled = true
lease_can_transition queued expired = true
lease_can_transition queued superseded = true
lease_can_transition offered active = true
lease_can_transition offered queued = true
lease_can_transition offered cancelled = true
lease_can_transition offered expired = true
lease_can_transition offered superseded = true
lease_can_transition active draining = true
lease_can_transition active released = true
lease_can_transition active expired = true
lease_can_transition active cancelled = true
lease_can_transition draining released = true
lease_can_transition draining expired = true
lease_can_transition _ _ = false

pub data ReadAttemptStatus : Type 0 where
  started completed failed expired : ReadAttemptStatus

-- `ReadAttemptStatus::can_transition_to`.
unfoldable pub read_can_transition : ReadAttemptStatus → ReadAttemptStatus → Bool
read_can_transition started completed = true
read_can_transition started failed = true
read_can_transition started expired = true
read_can_transition _ _ = false

pub data WriteAttemptStatus : Type 0 where
  prepared in_flight succeeded failed_clean failed_unknown partial : WriteAttemptStatus

-- `WriteAttemptStatus::is_terminal`.
unfoldable pub write_is_terminal : WriteAttemptStatus → Bool
write_is_terminal prepared = false
write_is_terminal in_flight = false
write_is_terminal _ = true

-- `WriteAttemptStatus::can_transition_to`.
unfoldable pub write_can_transition : WriteAttemptStatus → WriteAttemptStatus → Bool
unfolding write_is_terminal
write_can_transition prepared in_flight = true
write_can_transition prepared failed_clean = true
write_can_transition in_flight next = write_is_terminal next
write_can_transition _ _ = false

pub data MutationOperation : Type 0 where
  create update mkdir rmdir write_directory : (path : Text) → MutationOperation
  delete : (path : Text) (entry_only : Bool) → MutationOperation
  rename move : (old_path new_path : Text) (entry_only : Bool) → MutationOperation
  hardlink : (old_path new_path : Text) → MutationOperation
  structured_commit : (tracked_paths : List Text) → MutationOperation
