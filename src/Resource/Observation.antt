-- ===== src/Resource/Observation.antt =====
-- Equality of observations: the derived `==` of `ResourceObservation` and its states, and
-- `observations_same_state`, which leaves the generation out.
use stateful_core.Base.{
  Bool, true, false, ◌&&◌, ◌||◌, Option, none, some, List, [], ◌∷◌, ◌==◌, text_eq,
}
use stateful_core.Coordination.{
  ObjectKind, regular_file, directory, symlink, ObjectState, EntryState, DirectoryTreeState,
  Observed, ResourceObservation, key_eq,
}

unfoldable pub object_kind_eq : ObjectKind → ObjectKind → Bool
object_kind_eq regular_file regular_file = true
object_kind_eq directory directory = true
object_kind_eq symlink symlink = true
object_kind_eq _ _ = false

unfoldable pub option_bool_eq : Option Bool → Option Bool → Bool
option_bool_eq none none = true
option_bool_eq (some true) (some true) = true
option_bool_eq (some false) (some false) = true
option_bool_eq _ _ = false

unfoldable pub object_state_eq : ObjectState → ObjectState → Bool
unfolding object_kind_eq
object_state_eq ObjectState.absent ObjectState.absent = true
object_state_eq (ObjectState.present k d n) (ObjectState.present l e m) =
    object_kind_eq k l && text_eq d.value e.value && n == m
object_state_eq _ _ = false

unfoldable pub entry_state_eq : EntryState → EntryState → Bool
unfolding object_kind_eq option_bool_eq
entry_state_eq EntryState.absent EntryState.absent = true
entry_state_eq (EntryState.present k d i e) (EntryState.present l c j f) =
    object_kind_eq k l && d == c && i == j && option_bool_eq e f
entry_state_eq _ _ = false

unfoldable pub tree_state_eq : DirectoryTreeState → DirectoryTreeState → Bool
tree_state_eq DirectoryTreeState.absent DirectoryTreeState.absent = true
tree_state_eq (DirectoryTreeState.present d i s n) (DirectoryTreeState.present e j t m) =
    d == e && i == j && text_eq s.value t.value && n == m
tree_state_eq _ _ = false

-- `==` on states of one kind, and on their JSON; states of two kinds differ.
unfoldable pub observed_eq : Observed → Observed → Bool
unfolding object_state_eq entry_state_eq tree_state_eq
observed_eq (Observed.object s) (Observed.object t) = object_state_eq s t
observed_eq (Observed.entry s) (Observed.entry t) = entry_state_eq s t
observed_eq (Observed.directory_tree s) (Observed.directory_tree t) = tree_state_eq s t
observed_eq _ _ = false

unfoldable pub observation_eq : ResourceObservation → ResourceObservation → Bool
observation_eq a b =
    key_eq a.resource b.resource
    && observed_eq a.observed b.observed
    && a.generation == b.generation

-- `observations_same_state` of resource.rs.
unfoldable pub same_state : ResourceObservation → ResourceObservation → Bool
same_state a b = key_eq a.resource b.resource && observed_eq a.observed b.observed

-- `Vec`'s `==`.
unfoldable pub observations_eq : List ResourceObservation → List ResourceObservation → Bool
observations_eq [] [] = true
observations_eq (a ∷ as') (b ∷ bs) = observation_eq a b && observations_eq as' bs
observations_eq _ _ = false

unfoldable pub is_absent : Observed → Bool
is_absent (Observed.object ObjectState.absent) = true
is_absent (Observed.entry EntryState.absent) = true
is_absent (Observed.directory_tree DirectoryTreeState.absent) = true
is_absent _ = false

-- Equality of `observation_state_json`: the JSON of a state does not name its kind, so that absent
-- states of two kinds are equal.
unfoldable pub state_json_eq : Observed → Observed → Bool
unfolding is_absent
state_json_eq a b = (is_absent a && is_absent b) || observed_eq a b

unfoldable pub json_same_state : ResourceObservation → ResourceObservation → Bool
json_same_state a b = key_eq a.resource b.resource && state_json_eq a.observed b.observed

-- `observations_same_state` of store_v2.rs: the same states in the same order.
unfoldable pub observations_same_state : List ResourceObservation → List ResourceObservation → Bool
observations_same_state [] [] = true
observations_same_state (a ∷ as') (b ∷ bs) = json_same_state a b && observations_same_state as' bs
observations_same_state _ _ = false
