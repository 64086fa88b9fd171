-- ===== src/Resource/Start.antt =====
-- The directory and commit checks of crates/stateful-core/src/resource.rs, and
-- `validate_operation_start`.
use stateful_core.Base.{
  ℕ, Text, text, Bool, true, false, not, ◌&&◌, ◌||◌, Option, none, some, List, [], ◌∷◌, ◌++◌, any,
  ◌==◌, text_eq, is_empty,
}
use stateful_core.Coordination.{
  object, entry, directory_tree, ResourceObservation, Observed, EntryState, DirectoryTreeState,
  ContentDigest, ObjectKind, regular_file, directory, MutationOperation, create, mkdir, update,
  delete, rename, move, hardlink, rmdir, write_directory, structured_commit,
}
use stateful_core.Path.{operation_path}
use stateful_core.Resource.Error.{
  invalid_relative_path, invalid_observation, Checked, ok, err, Done, ◌>>=◌, ◌>>◌, fail_if,
}
use stateful_core.Resource.Observation.{object_kind_eq}
use stateful_core.Resource.Operation.{
  Shape, Pair, directory_id, require_shape, observation_at, validate_entry_resource,
  validate_target, validate_target_from_set, target_kind, validate_absent_entry,
  validate_absent_entry_from_set,
}

unfoldable pub path_or_fail : Text → Option Text → Checked Text
path_or_fail path none = err (invalid_relative_path path)
path_or_fail path (some p) = ok p

unfoldable pub checked_path : Text → Checked Text
unfolding path_or_fail
checked_path path = path_or_fail path (operation_path path)

-- Device, inode, snapshot and entry count of a present directory tree.
pub record TreeView : Type 0 where
  pub device : ℕ
  pub inode : ℕ
  pub snapshot : ContentDigest
  pub entry_count : ℕ

unfoldable pub tree_view : Observed → Checked TreeView
tree_view (Observed.directory_tree (DirectoryTreeState.present device inode snapshot entry_count)) =
    ok (record { device = device; inode = inode; snapshot = snapshot; entry_count = entry_count })
tree_view _ = err (invalid_observation "directory tree is absent")

unfoldable pub tree_of : ResourceObservation → Checked TreeView
unfolding tree_view
tree_of o = tree_view o.observed

unfoldable pub validate_directory_tree_from_set :
    List ResourceObservation → Text → Checked ResourceObservation
validate_directory_tree_from_set os path = do
  tree ← observation_at os directory_tree path
  view ← tree_of tree
  fail_if (not (text_eq tree.resource.resource_id (directory_id view.device view.inode)))
      (invalid_observation "directory tree identity or digest is invalid")
  ok tree

unfoldable pub validate_directory_tree :
    List ResourceObservation → Text → Checked ResourceObservation
validate_directory_tree os path = do
  require_shape os ((directory_tree, path) ∷ [])
  validate_directory_tree_from_set os path

-- `*empty != Some(*entry_count == 0)`.
unfoldable pub empty_matches : Option Bool → Bool → Bool
empty_matches none b = false
empty_matches (some true) b = b
empty_matches (some false) b = not b

unfoldable pub entry_matches_tree : TreeView → Observed → Checked Done
unfolding empty_matches
entry_matches_tree view (Observed.entry (EntryState.present kind device inode empty)) =
    fail_if
      (not (object_kind_eq kind directory)
        || not (view.device == device && view.inode == inode)
        || not (empty_matches empty (view.entry_count == 0)))
      (invalid_observation "directory tree and entry differ")
entry_matches_tree view _ = err (invalid_observation "directory entry is missing")

unfoldable pub validate_directory : List ResourceObservation → Text → Bool → Checked Pair
unfolding entry_matches_tree
validate_directory os path require_empty = do
  require_shape os ((directory_tree, path) ∷ (entry, path) ∷ [])
  tree ← validate_directory_tree_from_set os path
  entry' ← observation_at os entry path
  view ← tree_of tree
  entry_matches_tree view entry'.observed
  fail_if (require_empty && not (view.entry_count == 0))
      (invalid_observation "rmdir/mkdir directory must be empty")
  validate_entry_resource entry'.resource path
  ok (tree, entry')

unfoldable pub normalize_each : List Text → List Text → Checked (List Text)
normalize_each normalized [] = ok normalized
normalize_each normalized (p ∷ ps) = do
  path ← checked_path p
  fail_if (any (text_eq path) normalized)
      (invalid_observation "structured_commit tracked path is duplicated")
  normalize_each (normalized ++ path ∷ []) ps

unfoldable pub normalized_unique_paths : List Text → Checked (List Text)
unfolding normalize_each
normalized_unique_paths paths = do
  fail_if (is_empty paths) (invalid_observation "structured_commit requires tracked paths")
  normalize_each [] paths

-- Is the tracked entry present? Only a regular file may be.
unfoldable pub tracked_present : Observed → Checked Bool
tracked_present (Observed.entry EntryState.absent) = ok false
tracked_present (Observed.entry (EntryState.present ObjectKind.regular_file _ _ _)) = ok true
tracked_present _ = err (invalid_observation "structured_commit target is not a regular file")

-- The first loop: the paths with their presence.
unfoldable pub tracked_states : List ResourceObservation → List Text → Checked (List (Text × Bool))
unfolding tracked_present
tracked_states os [] = ok []
tracked_states os (path ∷ paths) = do
  fail_if (text_eq path (text ".git"))
      (invalid_observation "structured_commit tracked paths must not include .git")
  entry' ← observation_at os entry path
  present ← tracked_present entry'.observed
  rest ← tracked_states os paths
  ok ((path, present) ∷ rest)

unfoldable pub tracked_shape : List (Text × Bool) → Shape
tracked_shape [] = (directory_tree, text ".git") ∷ []
tracked_shape ((path, true) ∷ rest) = (entry, path) ∷ (object, path) ∷ tracked_shape rest
tracked_shape ((path, false) ∷ rest) = (entry, path) ∷ tracked_shape rest

unfoldable pub validate_tracked : List ResourceObservation → List (Text × Bool) → Checked Done
validate_tracked os [] = ok tt
validate_tracked os ((path, true) ∷ rest) = do
  pair ← validate_target_from_set regular_file os path
  validate_tracked os rest
validate_tracked os ((path, false) ∷ rest) = do
  entry' ← validate_absent_entry_from_set os path
  validate_tracked os rest

unfoldable pub validate_structured_commit_start :
    List Text → List ResourceObservation → Checked Done
unfolding tracked_states tracked_shape validate_tracked
validate_structured_commit_start tracked_paths os = do
  paths ← normalized_unique_paths tracked_paths
  states ← tracked_states os paths
  require_shape os (tracked_shape states)
  validate_tracked os states
  tree ← validate_directory_tree_from_set os (text ".git")
  ok tt

-- The shape of a rename, move or hardlink: the object at one path, and the entries at both.
abbrev pub two_path_shape : Text → Text → Text → Shape
two_path_shape object_path old_path new_path =
    (object, object_path) ∷ (entry, old_path) ∷ (entry, new_path) ∷ []

unfoldable pub start_two_paths : ObjectKind → List ResourceObservation → Text → Text → Checked Done
start_two_paths wanted os old_path new_path = do
  old ← checked_path old_path
  new ← checked_path new_path
  fail_if (text_eq old new) (invalid_observation "source and destination paths must differ")
  require_shape os (two_path_shape old old new)
  pair ← validate_target_from_set wanted os old
  entry' ← validate_absent_entry_from_set os new
  ok tt

unfoldable pub validate_operation_start :
    MutationOperation → List ResourceObservation → Checked Done
unfolding start_two_paths
validate_operation_start (create path) os = do
  p ← checked_path path
  entry' ← validate_absent_entry os p
  ok tt
validate_operation_start (mkdir path) os = do
  p ← checked_path path
  entry' ← validate_absent_entry os p
  ok tt
validate_operation_start (update path) os = do
  p ← checked_path path
  pair ← validate_target regular_file os p
  ok tt
validate_operation_start (delete path entry_only) os = do
  p ← checked_path path
  pair ← validate_target (target_kind entry_only) os p
  ok tt
validate_operation_start (rename old_path new_path entry_only) os =
    start_two_paths (target_kind entry_only) os old_path new_path
validate_operation_start (move old_path new_path entry_only) os =
    start_two_paths (target_kind entry_only) os old_path new_path
validate_operation_start (hardlink old_path new_path) os =
    start_two_paths regular_file os old_path new_path
validate_operation_start (rmdir path) os = do
  p ← checked_path path
  pair ← validate_directory os p true
  ok tt
validate_operation_start (write_directory path) os = do
  p ← checked_path path
  require_shape os ((directory_tree, p) ∷ [])
  tree ← validate_directory_tree_from_set os p
  ok tt
validate_operation_start (structured_commit tracked_paths) os =
    validate_structured_commit_start tracked_paths os
