-- ===== src/Migration/Layout.antt =====
-- crates/stateful-store/src/migration_v2.rs: whether a database has the layout that a migration starts
-- from.
use stateful_core.Base.{
  ℕ, ◌+◌, Text, text, text_eq, text_le, Bool, true, false, not, ◌&&◌, List, [], ◌∷◌, ◌++◌, map, any,
  all, length, sort_by, if◌then◌else◌, ◌==◌, leb,
}
use stateful_core.Migration.LegacySchema.{
  LegacyColumn, LegacyTable, legacy_schema, legacy_human_observations_schema,
  legacy_write_fences_schema, legacy_indexes, legacy_human_observations_indexes,
  legacy_write_fences_indexes,
}
use stateful_core.Migration.Sqlite.{View, is_table}

-- `str::eq_ignore_ascii_case`.
abbrev ascii_lower : ℕ → ℕ
ascii_lower c = if leb 65 c && leb c 90 then c + 32 else c

abbrev eq_ignore_ascii_case : Text → Text → Bool
eq_ignore_ascii_case s t = text_eq (map ascii_lower s) (map ascii_lower t)

abbrev bool_eq : Bool → Bool → Bool
bool_eq true b = b
bool_eq false b = not b

abbrev column_eq : LegacyColumn → LegacyColumn → Bool
column_eq actual expected =
    text_eq actual.name expected.name
    && eq_ignore_ascii_case actual.sql_type expected.sql_type
    && bool_eq actual.not_null expected.not_null
    && bool_eq actual.primary_key expected.primary_key

-- The comparison of the zipped columns.
abbrev zip_all : List LegacyColumn → List LegacyColumn → Bool
zip_all [] _ = true
zip_all (_ ∷ _) [] = true
zip_all (a ∷ actual) (e ∷ expected) = column_eq a e && zip_all actual expected

unfoldable pub has_column_shape : View → LegacyTable → Bool
has_column_shape v (table, expected) =
    let actual = v.table_columns table in
    length actual == length expected && zip_all actual expected

-- `user_schema_objects`: the kinds and names, in order.
unfoldable pub user_schema_objects : View → List (Text × Text)
user_schema_objects v = map (λ o. (o.kind, o.name)) v.schema_objects

unfoldable pub has_legacy_marker : View → Bool
has_legacy_marker v =
    any (text_eq (text "stateful.v1.initial")) v.versions
    && all (text_eq (text "stateful.v1.initial")) v.versions

-- The order of pairs of texts.
abbrev pair_le : Text × Text → Text × Text → Bool
pair_le (a, b) (c, d) = if text_eq a c then text_le b d else text_le a c

abbrev pairs_eq : List (Text × Text) → List (Text × Text) → Bool
pairs_eq [] [] = true
pairs_eq ((a, b) ∷ xs) ((c, d) ∷ ys) = text_eq a c && text_eq b d && pairs_eq xs ys
pairs_eq [] (_ ∷ _) = false
pairs_eq (_ ∷ _) [] = false

abbrev objects_of : List Text → List LegacyTable → List (Text × Text)
objects_of indexes tables =
    map (λ name. (text "index", name)) indexes ++ map (λ t. (text "table", t.0)) tables

abbrev if_list {ℓ} : {A : Type ℓ} → Bool → List A → List A
if_list b xs = if b then xs else []

-- The objects and the tables that a legacy database has, with those of the two later additions.
unfoldable pub expected_objects : Bool → Bool → List (Text × Text)
unfolding legacy_schema legacy_human_observations_schema legacy_write_fences_schema legacy_indexes
    legacy_human_observations_indexes legacy_write_fences_indexes
expected_objects has_human_observations has_write_fences = sort_by pair_le (
    objects_of legacy_indexes legacy_schema
    ++ if_list has_human_observations
        (objects_of legacy_human_observations_indexes legacy_human_observations_schema)
    ++ if_list has_write_fences (objects_of legacy_write_fences_indexes legacy_write_fences_schema))

unfoldable pub expected_tables : Bool → Bool → List LegacyTable
unfolding legacy_schema legacy_human_observations_schema legacy_write_fences_schema
expected_tables has_human_observations has_write_fences =
    legacy_schema
    ++ if_list has_human_observations legacy_human_observations_schema
    ++ if_list has_write_fences legacy_write_fences_schema

-- The objects and the columns are those of an old database.
unfoldable pub has_legacy_tables : View → Bool
unfolding is_table user_schema_objects expected_objects expected_tables has_column_shape
has_legacy_tables v =
    let has_human_observations = any (is_table (text "human_observations")) v.schema_objects in
    let has_write_fences = any (is_table (text "write_fences")) v.schema_objects in
    pairs_eq (user_schema_objects v) (expected_objects has_human_observations has_write_fences)
    && all (has_column_shape v) (expected_tables has_human_observations has_write_fences)

unfoldable pub has_legacy_layout : View → Bool
unfolding has_legacy_tables has_legacy_marker
has_legacy_layout v = has_legacy_tables v && has_legacy_marker v
