-- ===== src/Resource.antt =====
-- crates/stateful-core/src/resource.rs: the order of resource keys, `ResourceSet`, and the test by
-- which two resources exclude each other.
pub mod Overlap
pub mod Observation
pub mod Error
pub mod Operation
pub mod Start
pub mod Transition
use stateful_core.Base.{
  ℕ, Text, text, Bool, true, false, ◌&&◌, ◌||◌, Option, none, some, List, [], ◌∷◌, if◌then◌else◌,
  text_eq, text_le, strip_prefix, is_empty, any, sort_by, ◌==◌,
}
use stateful_core.Coordination.{
  ResourceKind, object, entry, directory_tree, kind_eq, ResourceKey, key_eq, ResourceObservation,
}

-- The derived `Ord` of `ResourceKind`: the order of the constructors.
unfoldable pub kind_le : ResourceKind → ResourceKind → Bool
kind_le object _ = true
kind_le entry object = false
kind_le entry _ = true
kind_le directory_tree directory_tree = true
kind_le directory_tree _ = false

-- The derived `Ord` of `ResourceKey`, which is also the order of `ResourceSet::new`.
unfoldable pub key_le : ResourceKey → ResourceKey → Bool
unfolding kind_le
key_le a b =
    if text_eq a.workspace_id b.workspace_id
    then (if kind_eq a.kind b.kind
        then (if text_eq a.resource_id b.resource_id
            then text_le a.canonical_path b.canonical_path
            else text_le a.resource_id b.resource_id)
        else kind_le a.kind b.kind)
    else text_le a.workspace_id b.workspace_id

-- The identity of a resource: workspace, kind and physical id, whatever the path.
unfoldable pub same_identity : ResourceKey → ResourceKey → Bool
same_identity a b =
    text_eq a.workspace_id b.workspace_id
    && kind_eq a.kind b.kind
    && text_eq a.resource_id b.resource_id

-- `sort` on keys, and `sort_by` the resource on observations.
abbrev pub sort_keys : List ResourceKey → List ResourceKey
sort_keys = sort_by key_le

abbrev pub sort_observations : List ResourceObservation → List ResourceObservation
sort_observations = sort_by (λ a b. key_le a.resource b.resource)

-- `dedup_by`: an element goes if it has the identity of the last one kept.
unfoldable pub dedup_after : ResourceKey → List ResourceKey → List ResourceKey
dedup_after kept [] = []
dedup_after kept (k ∷ ks) =
    let skip = dedup_after kept ks in
    let keep = k ∷ dedup_after k ks in if same_identity k kept then skip else keep

unfoldable pub dedup : List ResourceKey → List ResourceKey
unfolding dedup_after
dedup [] = []
dedup (k ∷ ks) = k ∷ dedup_after k ks

-- `ResourceSet::new`.
unfoldable pub new_set : List ResourceKey → List ResourceKey
unfolding dedup
new_set ks = dedup (sort_keys ks)

unfoldable pub starts_with_slash : Text → Bool
starts_with_slash [] = false
starts_with_slash (c ∷ _) = c == b'/'

unfoldable pub suffix_is_child : Option Text → Bool
unfolding starts_with_slash
suffix_is_child none = false
suffix_is_child (some suffix) = starts_with_slash suffix

unfoldable pub path_contains : Text → Text → Bool
unfolding suffix_is_child
path_contains directory path = is_empty directory || suffix_is_child (strip_prefix directory path)

unfoldable pub resource_keys_overlap : ResourceKey → ResourceKey → Bool
resource_keys_overlap left right =
    if text_eq left.workspace_id right.workspace_id
    then (kind_eq left.kind right.kind && text_eq left.resource_id right.resource_id)
      || text_eq left.canonical_path right.canonical_path
      || (kind_eq left.kind directory_tree
          && path_contains left.canonical_path right.canonical_path)
      || (kind_eq right.kind directory_tree
          && path_contains right.canonical_path left.canonical_path)
    else false

-- Does some member of the one set overlap some member of the other (`ResourceSet::overlaps`, and
-- the nested `any` of the store)?
unfoldable pub sets_overlap : List ResourceKey → List ResourceKey → Bool
sets_overlap lefts rights = any (λ left. any (resource_keys_overlap left) rights) lefts
