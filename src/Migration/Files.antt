-- ===== src/Migration/Files.antt =====
-- crates/stateful-store/src/migration_v2.rs: the helpers on files. `restrict_file_permissions` is
-- its test of the file, since permission bits are no part of the disk here; a synchronisation is an access
-- that changes nothing.
use stateful_core.Base.{Text, Bool, true, false, Option, none, some, [], ◌∷◌, ◌++◌}
use stateful_core.Migration.Disk.{
  Place, Suffix, plain, Node, regular, irregular, Disk, put, Result, ok, err, io, Action, Done,
  access, pure, ◌>>=◌, ◌>>◌, effect, when, fail_if, for_each, sidecars,
}

-- `fs::symlink_metadata` and the tests on what it finds.
abbrev pub node_exists : Option Node → Result Bool
node_exists none = ok false
node_exists (some (regular _)) = ok true
node_exists (some irregular) = err (io "state database path must be a regular file")

abbrev pub with_disk : Disk → Result Bool → Result (Bool × Disk)
with_disk disk (ok b) = ok (b, disk)
with_disk disk (err e) = err e

unfoldable pub regular_file_exists : Place → Suffix → Action Bool
regular_file_exists p s = access (λ disk. with_disk disk (node_exists (disk p s)))

unfoldable pub restrict_file_permissions : Place → Suffix → Action Done
restrict_file_permissions p s = do
  found ← regular_file_exists p s
  when found (effect (λ disk. disk))

unfoldable pub sync_parent : Action Done
sync_parent = effect (λ disk. disk)

abbrev pub open_node : Disk → Option Node → Result (Text × Disk)
open_node disk none = err (io "No such file or directory")
open_node disk (some irregular) = err (io "No such file or directory")
open_node disk (some (regular content)) = ok (content, disk)

-- `File::open` and a read to the end.
unfoldable pub read_file : Place → Suffix → Action Text
read_file p s = access (λ disk. open_node disk (disk p s))

unfoldable pub sync_file : Place → Suffix → Action Done
unfolding read_file
sync_file p s = read_file p s >>= λ _. effect (λ disk. disk)

-- `write_all` at the place that was reached, one byte after the other.
unfoldable pub write_from : Place → Suffix → Text → Text → Action Done
write_from p s written [] = pure tt
write_from p s written (c ∷ cs) =
    effect (put p s (some (regular (written ++ c ∷ [])))) >> write_from p s (written ++ c ∷ []) cs

unfoldable pub remove_file_if_exists : Place → Suffix → Action Done
unfolding regular_file_exists
remove_file_if_exists p s = do found ← regular_file_exists p s; when found (effect (put p s none))

unfoldable pub remove_database_sidecars : Place → Action Done
unfolding remove_file_if_exists
remove_database_sidecars p = for_each sidecars (remove_file_if_exists p)

unfoldable pub remove_database_set : Place → Action Done
unfolding remove_file_if_exists remove_database_sidecars
remove_database_set p = do remove_file_if_exists p plain; remove_database_sidecars p

unfoldable pub create_private_file : Place → Action Done
unfolding regular_file_exists restrict_file_permissions
create_private_file p = do
  found ← regular_file_exists p plain
  fail_if found (io "private file already exists")
  effect (put p plain (some (regular [])))
  restrict_file_permissions p plain

abbrev pub renamed : Disk → Place → Place → Suffix → Option Node → Result (Done × Disk)
renamed disk p q s none = err (io "No such file or directory")
renamed disk p q s (some entry) = ok (tt, put p s none (put q s (some entry) disk))

-- `fs::rename`.
unfoldable pub rename : Place → Place → Suffix → Action Done
rename p q s = access (λ disk. renamed disk p q s (disk p s))

unfoldable pub move_file_if_exists : Place → Place → Suffix → Action Done
unfolding regular_file_exists remove_file_if_exists rename restrict_file_permissions
move_file_if_exists p q s = do
  found ← regular_file_exists p s
  when found (do remove_file_if_exists q s; rename p q s; restrict_file_permissions q s)

unfoldable pub ensure_no_orphan_sidecars : Action Done
unfolding regular_file_exists
ensure_no_orphan_sidecars = for_each sidecars (λ s. regular_file_exists Place.main s >>= λ found.
    fail_if found (io "database sidecar exists without its main file"))

unfoldable pub restrict_if_exists : Place → Suffix → Action Done
unfolding regular_file_exists restrict_file_permissions
restrict_if_exists p s = do
  found ← regular_file_exists p s
  when found (restrict_file_permissions p s)

unfoldable pub restrict_database_permissions : Place → Action Done
unfolding restrict_file_permissions
restrict_database_permissions p = do
  restrict_file_permissions p plain
  for_each sidecars (restrict_if_exists p)
