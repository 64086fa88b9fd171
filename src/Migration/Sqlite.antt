-- ===== src/Migration/Sqlite.antt =====
-- crates/stateful-store/src/migration_v2.rs: what the code asks of SQLite, and what it makes of the
-- answers. SQLite itself is a parameter: a statement changes the files of its own database one after the other
-- and answers, and a query reads the database that the files hold.
use stateful_core.Base.{
  ℕ, Text, text, text_eq, Bool, true, false, not, ◌&&◌, ◌||◌, Option, none, some, List, [], ◌∷◌,
  any, filter, ◌==◌,
}
use stateful_core.Migration.Disk.{
  Place, Suffix, FileSet, Node, regular, put, Result, ok, err, Error, Action, Done, access, pure,
  raise, ◌>>◌, effect, Outcome, done, failed, killed,
}
use stateful_core.Migration.LegacySchema.{LegacyColumn}

-- A row of `sqlite_master`.
pub record SchemaObject : Type 0 where
  pub kind : Text
  pub name : Text
  pub tbl_name : Text
  pub sql : Text

-- What the queries read: the schema's objects in order, the number of rows of `sqlite_master`, the columns
-- of a table, the rows of `schema_migrations`, and whether two active leases have one agent.
pub record View : Type 0 where
  pub schema_objects : List SchemaObject
  pub master_rows : ℕ
  pub table_columns : Text → List LegacyColumn
  pub versions : List Text
  pub has_slot_duplicates : Bool

pub data Statement : Type 0 where
  open_connection configure switch_to_wal begin_exclusive count_master commit wal_checkpoint
        create_v2_schema begin_lock close_connection drop_connection :
      Statement

pub record Reply : Type 0 where
  pub changes : List (Suffix × Option Text)
  pub answer : Result ℕ

-- `backup_changes`: what a backup of these files changes in the files of its destination.
pub record Sqlite : Type 0 where
  pub run : Statement → FileSet → Reply
  pub view : FileSet → View
  pub backup_changes : FileSet → List (Suffix × Option Text)
  pub v2_schema : List SchemaObject

abbrev pub node_of : Option Text → Option Node
node_of none = none
node_of (some content) = some (regular content)

unfoldable pub apply_changes : Place → List (Suffix × Option Text) → Action Done
apply_changes p [] = pure tt
apply_changes p ((s, content) ∷ changes) =
    effect (put p s (node_of content)) >> apply_changes p changes

abbrev pub from_result {ℓ} : {A : Type ℓ} → Result A → Action A
from_result (ok a) = pure a
from_result (err e) = raise e

unfoldable pub execute_reply : Place → Reply → Action ℕ
unfolding apply_changes
execute_reply p reply = apply_changes p reply.changes >> from_result reply.answer

unfoldable pub execute : Sqlite → Statement → Place → Action ℕ
unfolding execute_reply
execute db statement p disk = execute_reply p (db.run statement (disk p)) disk

-- A connection that goes out of scope because of an error is closed.
abbrev pub after_drop {ℓ} : {A : Type ℓ} → Error → Outcome ℕ → Outcome A
after_drop e (done _ disk fate) = failed e disk fate
after_drop e (failed _ disk fate) = failed e disk fate
after_drop e (killed disk) = killed disk

unfoldable pub dropping {ℓ} : {A : Type ℓ} → Sqlite → Place → Action A → Action A
unfolding execute
dropping db p m disk fate = elim (m disk fate) [
  | done a disk' fate' ↦ done a disk' fate'
  | failed e disk' fate' ↦ after_drop e (execute db drop_connection p disk' fate')
  | killed disk' ↦ killed disk'
]

unfoldable pub query {ℓ} : {A : Type ℓ} → Sqlite → (View → A) → Place → Action A
query db f p = access (λ disk. ok (f (db.view (disk p)), disk))

abbrev pub v2_marker : Text
v2_marker = text "stateful.v2.lease1"

unfoldable pub is_table : Text → SchemaObject → Bool
is_table name object = text_eq object.kind (text "table") && text_eq object.name name

unfoldable pub table_has_column : View → Text → Text → Bool
table_has_column v table column = any (λ c. text_eq c.name column) (v.table_columns table)

unfoldable pub has_v2_marker : View → Bool
unfolding is_table table_has_column
has_v2_marker v =
    any (is_table (text "schema_migrations")) v.schema_objects
    && table_has_column v (text "schema_migrations") (text "version")
    && any (text_eq v2_marker) v.versions

abbrev object_eq : SchemaObject → SchemaObject → Bool
object_eq a b =
    text_eq a.kind b.kind
    && text_eq a.name b.name
    && text_eq a.tbl_name b.tbl_name
    && text_eq a.sql b.sql

abbrev same_list {ℓ} : {A : Type ℓ} → (A → A → Bool) → List A → List A → Bool
same_list f [] [] = true
same_list f (x ∷ xs) (y ∷ ys) = f x y && same_list f xs ys
same_list f [] (_ ∷ _) = false
same_list f (_ ∷ _) [] = false

unfoldable pub has_exact_v2_schema : Sqlite → View → Bool
has_exact_v2_schema db v = same_list object_eq v.schema_objects db.v2_schema

unfoldable pub is_agent_slot_index_upgrade : Sqlite → View → Bool
is_agent_slot_index_upgrade db v =
    let previous =
      filter (λ o. not (text_eq o.name (text "idx_unique_active_lease_agent"))) db.v2_schema in
    same_list object_eq v.schema_objects previous && not v.has_slot_duplicates

unfoldable pub is_v2_database : Sqlite → View → Bool
unfolding has_v2_marker has_exact_v2_schema is_agent_slot_index_upgrade
is_v2_database db v =
    has_v2_marker v && (has_exact_v2_schema db v || is_agent_slot_index_upgrade db v)

unfoldable pub is_empty_database : View → Bool
is_empty_database v = v.master_rows == 0
