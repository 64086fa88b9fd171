-- ===== src/Resource/Transition.antt =====
-- `validate_operation_transition` of crates/stateful-core/src/resource.rs: the post-states that an
-- operation may claim.
use stateful_core.Base.{Text, text, Bool, true, not, ◌&&◌, List, any, all, length, ◌==◌, text_eq}
use stateful_core.Coordination.{
  entry, key_eq, ResourceObservation, regular_file, ObjectKind, MutationOperation, create, mkdir,
  update, delete, rename, move, hardlink, rmdir, write_directory, structured_commit,
}
use stateful_core.Resource.Error.{invalid_transition, Checked, Done, ◌>>=◌, ◌>>◌, fail_if}
use stateful_core.Resource.Observation.{observed_eq, same_state}
use stateful_core.Resource.Operation.{
  object_id, require_shape, observation_at, validate_present_entry, validate_target,
  validate_target_from_set, target_kind, validate_absent_entry, validate_absent_entry_from_set,
}
use stateful_core.Resource.Start.{
  checked_path, tree_of, validate_directory, validate_directory_tree,
  validate_directory_tree_from_set, validate_structured_commit_start, two_path_shape,
  validate_operation_start,
}

unfoldable pub require_same_resource : ResourceObservation → ResourceObservation → Checked Done
require_same_resource left right =
    fail_if (not (key_eq left.resource right.resource)) (invalid_transition "resource key changed")

unfoldable pub require_directory_identity : ResourceObservation → ResourceObservation → Checked Done
require_directory_identity left right = do
  l ← tree_of left
  r ← tree_of right
  fail_if (not (l.device == r.device && l.inode == r.inode))
      (invalid_transition "directory identity changed")

unfoldable pub transition_two_paths :
    ObjectKind → List ResourceObservation → List ResourceObservation → Text → Text → Checked Done
transition_two_paths wanted start expected old_path new_path = do
  old ← checked_path old_path
  new ← checked_path new_path
  (start_object, start_entry) ← validate_target_from_set wanted start old
  destination_start ← validate_absent_entry_from_set start new
  require_shape expected (two_path_shape new old new)
  (post_object, destination_post) ← validate_target_from_set wanted expected new
  source_post ← validate_absent_entry_from_set expected old
  fail_if (not (text_eq start_object.resource.resource_id post_object.resource.resource_id))
      (invalid_transition "rename/move must preserve source object identity")
  require_same_resource start_entry source_post
  require_same_resource destination_start destination_post

unfoldable pub transition_hardlink :
    List ResourceObservation → List ResourceObservation → Text → Text → Checked Done
transition_hardlink start expected old_path new_path = do
  old ← checked_path old_path
  new ← checked_path new_path
  (start_object, start_entry) ← validate_target_from_set regular_file start old
  destination_start ← validate_absent_entry_from_set start new
  require_shape expected (two_path_shape old old new)
  (post_object, source_post) ← validate_target_from_set regular_file expected old
  destination_post ← observation_at expected entry new
  (device, inode) ← validate_present_entry regular_file destination_post new
  require_same_resource start_object post_object
  require_same_resource start_entry source_post
  require_same_resource destination_start destination_post
  fail_if (not (text_eq post_object.resource.resource_id (object_id device inode)))
      (invalid_transition "hardlink destination does not share source object identity")

unfoldable pub validate_structured_commit_transition :
    List ResourceObservation → List ResourceObservation → Checked Done
validate_structured_commit_transition start expected = do
  start_git ← validate_directory_tree_from_set start (text ".git")
  expected_git ← validate_directory_tree_from_set expected (text ".git")
  require_same_resource start_git expected_git
  require_directory_identity start_git expected_git
  before ← tree_of start_git
  after ← tree_of expected_git
  fail_if (text_eq before.snapshot.value after.snapshot.value)
      (invalid_transition "structured-commit .git metadata snapshot must change")
  fail_if
      (any
        (λ (o : ResourceObservation).
          not (key_eq o.resource expected_git.resource)
          && not (any (λ candidate. same_state candidate o) expected))
        start)
      (invalid_transition "structured-commit tracked observations must remain unchanged")

unfoldable pub validate_expected_transition :
    MutationOperation → List ResourceObservation → List ResourceObservation → Checked Done
unfolding transition_two_paths transition_hardlink
validate_expected_transition (create path) start expected = do
  p ← checked_path path
  start_entry ← validate_absent_entry start p
  (object', entry') ← validate_target regular_file expected p
  require_same_resource start_entry entry'
validate_expected_transition (update path) start expected = do
  p ← checked_path path
  (start_object, start_entry) ← validate_target regular_file start p
  (post_object, post_entry) ← validate_target regular_file expected p
  require_same_resource start_entry post_entry
  fail_if
      (text_eq start_object.resource.resource_id post_object.resource.resource_id
        && observed_eq start_object.observed post_object.observed)
      (invalid_transition "update post-state must change content or rebind object identity")
validate_expected_transition (delete path entry_only) start expected = do
  p ← checked_path path
  (start_object, start_entry) ← validate_target (target_kind entry_only) start p
  post_entry ← validate_absent_entry expected p
  require_same_resource start_entry post_entry
validate_expected_transition (rename old_path new_path entry_only) start expected =
    transition_two_paths (target_kind entry_only) start expected old_path new_path
validate_expected_transition (move old_path new_path entry_only) start expected =
    transition_two_paths (target_kind entry_only) start expected old_path new_path
validate_expected_transition (hardlink old_path new_path) start expected =
    transition_hardlink start expected old_path new_path
validate_expected_transition (mkdir path) start expected = do
  p ← checked_path path
  start_entry ← validate_absent_entry start p
  (tree, entry') ← validate_directory expected p true
  require_same_resource start_entry entry'
validate_expected_transition (rmdir path) start expected = do
  p ← checked_path path
  (tree, start_entry) ← validate_directory start p true
  post_entry ← validate_absent_entry expected p
  require_same_resource start_entry post_entry
validate_expected_transition (write_directory path) start expected = do
  p ← checked_path path
  start_tree ← validate_directory_tree start p
  post_tree ← validate_directory_tree expected p
  require_same_resource start_tree post_tree
  require_directory_identity start_tree post_tree
validate_expected_transition (structured_commit tracked_paths) start expected = do
  validate_structured_commit_start tracked_paths expected
  validate_structured_commit_transition start expected

unfoldable pub observations_equal_as_set :
    List ResourceObservation → List ResourceObservation → Bool
observations_equal_as_set expected actual =
    length expected == length actual
    && all (λ o. any (λ candidate. same_state candidate o) actual) expected

unfoldable pub validate_operation_transition :
    MutationOperation
    → List ResourceObservation
    → List ResourceObservation
    → List ResourceObservation
    → Checked Done
validate_operation_transition operation start expected actual = do
  validate_operation_start operation start
  validate_expected_transition operation start expected
  fail_if (not (observations_equal_as_set expected actual))
      (invalid_transition "actual post-state does not exactly match expected post-state")
