-- ===== src/Migration/LegacyMarker.antt =====
-- The layout of an old database and the marker of version 2.
use stateful_core.Base.{
  Text, text, text_eq, Bool, true, false, ◌&&◌, List, [], ◌∷◌, any, all, ◌≡◌, refl, arith, ap, sym,
  text_eq-eq,
}
use stateful_core.Migration.Sqlite.{View, is_table, table_has_column, v2_marker, has_v2_marker}
use stateful_core.Migration.Layout.{has_legacy_tables, has_legacy_marker, has_legacy_layout}

other_version :
    (version : Text)
    → text_eq (text "stateful.v1.initial") version ≡ true
    → text_eq v2_marker version ≡ false
unfolding text_eq
other_version version h =
    ap (text_eq v2_marker) (sym (text_eq-eq (text "stateful.v1.initial") version h))

legacy_versions :
    (versions : List Text)
    → all (text_eq (text "stateful.v1.initial")) versions ≡ true
    → any (text_eq v2_marker) versions ≡ false
legacy_versions [] h = refl
legacy_versions (version ∷ versions) h =
    ground (arith, other_version version, legacy_versions versions)

last_of_two : (a b : Bool) → (a && b) ≡ true → b ≡ true
last_of_two a b h = ground arith

last_is_false : (a b c : Bool) → c ≡ false → (a && b && c) ≡ false
last_is_false a b c h = ground arith

legacy_layout_versions :
    (v : View)
    → has_legacy_layout v ≡ true
    → all (text_eq (text "stateful.v1.initial")) v.versions ≡ true
unfolding has_legacy_layout has_legacy_marker
legacy_layout_versions v h =
    last_of_two (any (text_eq (text "stateful.v1.initial")) v.versions) _
      (last_of_two (has_legacy_tables v) _ h)

-- A database that has the layout from which a migration starts has no marker of version 2, so that no
-- migrated database is migrated again.
pub has_legacy_layout-unmarked : (v : View) → has_legacy_layout v ≡ true → has_v2_marker v ≡ false
unfolding has_v2_marker
has_legacy_layout-unmarked v h =
    last_is_false (any (is_table (text "schema_migrations")) v.schema_objects)
      (table_has_column v (text "schema_migrations") (text "version")) _
      (legacy_versions v.versions (legacy_layout_versions v h))
