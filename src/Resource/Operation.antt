-- ===== src/Resource/Operation.antt =====
-- `validate_operation_start` of crates/stateful-core/src/resource.rs: the observations that an
-- operation may start from.
use stateful_core.Base.{
  ℕ, zero, suc, ◌+◌, ◌/◌, ◌%◌, Text, text, Bool, true, false, not, ◌&&◌, ◌||◌, Option, none, some,
  List, [], ◌∷◌, ◌++◌, reverse, any, all, filter, length, if◌then◌else◌, ◌==◌, ltb, text_eq,
  is_empty, strip_prefix,
}
use stateful_core.Coordination.{
  ResourceKind, object, entry, kind_eq, ResourceKey, key_eq, ResourceObservation, Observed,
  ObjectState, EntryState, ObjectKind, regular_file, symlink, has_matching_resource_kind,
}
use stateful_core.Path.{split_slash}
use stateful_core.Resource.Observation.{object_kind_eq}
use stateful_core.Resource.Error.{invalid_observation, Checked, ok, err, Done, ◌>>=◌, ◌>>◌, fail_if}

-- `format!("{n}")`.
unfoldable pub decimal_onto : ℕ → ℕ → Text → Text
decimal_onto zero n rest = rest
decimal_onto (suc fuel) n rest =
    let more = decimal_onto fuel (n / 10) ((b'0' + n % 10) ∷ rest) in
    if ltb n 10 then (b'0' + n) ∷ rest else more

unfoldable pub decimal : ℕ → Text
unfolding decimal_onto
decimal n = decimal_onto (suc n) n []

-- `format!("object:{device}:{inode}")` and `format!("directory:{device}:{inode}")`.
unfoldable pub object_id : ℕ → ℕ → Text
object_id device inode = text "object:" ++ decimal device ++ text ":" ++ decimal inode

unfoldable pub directory_id : ℕ → ℕ → Text
directory_id device inode = text "directory:" ++ decimal device ++ text ":" ++ decimal inode

abbrev pub is_some {ℓ} : {A : Type ℓ} → Option A → Bool
is_some none = false
is_some (some _) = true

unfoldable pub starts_with : Text → Text → Bool
starts_with t prefix = is_some (strip_prefix prefix t)

unfoldable pub ends_with : Text → Text → Bool
ends_with t suffix = starts_with (reverse t) (reverse suffix)

unfoldable pub last_segment : List Text → Text
last_segment [] = []
last_segment (s ∷ []) = s
last_segment (s ∷ t ∷ ss) = last_segment (t ∷ ss)

-- `path.rsplit('/').next()`.
unfoldable pub basename : Text → Text
unfolding last_segment
basename path = last_segment (split_slash path)

abbrev pub Shape : Type 0
Shape = List (ResourceKind × Text)

unfoldable pub is_at : ResourceKind → Text → ResourceObservation → Bool
is_at kind path o = kind_eq o.resource.kind kind && text_eq o.resource.canonical_path path

unfoldable pub shape_found : List ResourceObservation → Shape → Bool
shape_found os [] = true
shape_found os ((kind, path) ∷ shape) =
    length (filter (is_at kind path) os) == 1 && shape_found os shape

unfoldable pub in_shape : Shape → ResourceObservation → Bool
in_shape [] o = false
in_shape ((kind, path) ∷ shape) o = is_at kind path o || in_shape shape o

-- The last loop: `seen` are the observations before this one.
unfoldable pub check_each :
    Shape → List ResourceObservation → List ResourceObservation → Checked Done
check_each shape seen [] = ok tt
check_each shape seen (o ∷ os) = do
  fail_if (any (λ (other : ResourceObservation). key_eq other.resource o.resource) seen)
      (invalid_observation "duplicate resource observation")
  fail_if (not (in_shape shape o)) (invalid_observation "unexpected resource key or canonical path")
  check_each shape (o ∷ seen) os

-- Every observation matches its kind and is of the first one's workspace, which is not empty.
unfoldable pub one_workspace : List ResourceObservation → Bool
one_workspace [] = false
one_workspace (o ∷ os) =
    not (is_empty o.resource.workspace_id)
    && all
        (λ (p : ResourceObservation).
          has_matching_resource_kind p && text_eq p.resource.workspace_id o.resource.workspace_id)
        (o ∷ os)

unfoldable pub require_shape : List ResourceObservation → Shape → Checked Done
unfolding shape_found check_each one_workspace in_shape
require_shape os shape = do
  fail_if (not (length os == length shape) || is_empty os)
      (invalid_observation "resource observation count is not exact")
  fail_if (not (one_workspace os))
      (invalid_observation "resource observations have invalid workspace or kind")
  fail_if (not (shape_found os shape))
      (invalid_observation "required resource key or canonical path is missing")
  check_each shape [] os

unfoldable pub the_only : List ResourceObservation → Checked ResourceObservation
the_only [] = err (invalid_observation "required resource observation is missing")
the_only (o ∷ []) = ok o
the_only (o ∷ _ ∷ _) = err (invalid_observation "resource observation is ambiguous")

unfoldable pub observation_at :
    List ResourceObservation → ResourceKind → Text → Checked ResourceObservation
unfolding the_only
observation_at os kind path = the_only (filter (is_at kind path) os)

unfoldable pub validate_entry_resource : ResourceKey → Text → Checked Done
validate_entry_resource resource path =
    fail_if
      (not (starts_with resource.resource_id (text "entry:"))
        || not (ends_with resource.resource_id (b':' ∷ basename path)))
      (invalid_observation "entry physical key does not match canonical path")

-- `validate_present_regular_entry` and `validate_present_symlink_entry`: the device and the inode
-- of a present entry of the kind.
unfoldable pub present_entry : ObjectKind → Text → ResourceKey → Observed → Checked (ℕ × ℕ)
present_entry wanted path resource (Observed.entry (EntryState.present kind device inode empty)) =
    do
      fail_if (not (object_kind_eq kind wanted) || is_some empty)
          (invalid_observation "entry is not of the kind of the operation")
      validate_entry_resource resource path
      ok (device, inode)
present_entry wanted path resource _ = err (invalid_observation "entry is missing")

unfoldable pub validate_present_entry : ObjectKind → ResourceObservation → Text → Checked (ℕ × ℕ)
unfolding present_entry
validate_present_entry wanted o path = present_entry wanted path o.resource o.observed

unfoldable pub present_object : ObjectKind → Observed → Checked Done
present_object wanted (Observed.object (ObjectState.present kind _ _)) =
    fail_if (not (object_kind_eq kind wanted))
      (invalid_observation "object is not of the kind of the operation")
present_object wanted _ = err (invalid_observation "object is missing")

abbrev pub Pair : Type 0
Pair = ResourceObservation × ResourceObservation

-- `validate_regular_file_from_set` and `validate_symlink_entry_from_set`: an object and its entry.
unfoldable pub validate_target_from_set :
    ObjectKind → List ResourceObservation → Text → Checked Pair
unfolding present_object
validate_target_from_set wanted os path = do
  object' ← observation_at os object path
  entry' ← observation_at os entry path
  present_object wanted object'.observed
  (device, inode) ← validate_present_entry wanted entry' path
  fail_if (not (text_eq object'.resource.resource_id (object_id device inode)))
      (invalid_observation "object and entry identities differ")
  ok (object', entry')

abbrev pub target_shape : Text → Shape
target_shape path = (object, path) ∷ (entry, path) ∷ []

unfoldable pub validate_target : ObjectKind → List ResourceObservation → Text → Checked Pair
validate_target wanted os path = do
  require_shape os (target_shape path)
  validate_target_from_set wanted os path

-- `validate_existing_target`: a symlink's entry, or a regular file.
unfoldable pub target_kind : Bool → ObjectKind
target_kind true = symlink
target_kind false = regular_file

unfoldable pub absent_entry : Observed → Checked Done
absent_entry (Observed.entry EntryState.absent) = ok tt
absent_entry _ = err (invalid_observation "destination entry must be absent")

unfoldable pub validate_absent_entry_from_set :
    List ResourceObservation → Text → Checked ResourceObservation
unfolding absent_entry
validate_absent_entry_from_set os path = do
  entry' ← observation_at os entry path
  absent_entry entry'.observed
  validate_entry_resource entry'.resource path
  ok entry'

unfoldable pub validate_absent_entry : List ResourceObservation → Text → Checked ResourceObservation
validate_absent_entry os path = do
  require_shape os ((entry, path) ∷ [])
  validate_absent_entry_from_set os path
