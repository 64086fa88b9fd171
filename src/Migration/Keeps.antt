-- ===== src/Migration/Keeps.antt =====
-- What the helpers on files and the statements of SQLite keep: a predicate that does not depend on
-- the files that they change.
use stateful_core.Base.{◌≡◌, refl, ℕ, Text, Option, none, some, List, [], ◌∷◌, ◌++◌}
use stateful_core.Migration.Disk.{
  Place, Suffix, plain, sidecars, Node, regular, irregular, Disk, put, Result, ok, err, Error, io,
  Action, Outcome, done, failed, killed, effect,
}
use stateful_core.Migration.Files.{
  node_exists, with_disk, open_node, renamed, regular_file_exists, restrict_file_permissions,
  sync_parent, read_file, sync_file, write_from, remove_file_if_exists, remove_database_sidecars,
  remove_database_set, create_private_file, rename, move_file_if_exists, restrict_if_exists,
  restrict_database_permissions,
}
use stateful_core.Migration.Sqlite.{
  Sqlite, View, Statement, drop_connection, node_of, apply_changes, from_result, execute_reply,
  execute, after_drop, dropping, query, Reply,
}
use stateful_core.Migration.Triple.{
  Triple, Keeps, Judged, Answered, access-Triple, pure-Triple, raise-Triple, ◌then◌, effect-Triple,
  when-Keeps, fail_if-Keeps, for_each-Keeps,
}

-- The predicate does not depend on the files of a place.
abbrev pub Ignores : (Disk → Type 0) → Place → Type 0
Ignores I p = (s : Suffix) (entry : Option Node) (disk : Disk) → I disk → I (put p s entry disk)

renamed-Answered :
    (I : Disk → Type 0) (p q : Place) (s : Suffix)
    → Ignores I p
    → Ignores I q
    → (disk : Disk) (entry : Option Node) → I disk
    → Answered (λ _. I) I disk (renamed disk p q s entry)
renamed-Answered I p q s fp fq disk none i = i
renamed-Answered I p q s fp fq disk (some entry) i =
    fp s none (put q s (some entry) disk) (fq s (some entry) disk i)

module _ (I : Disk → Type 0) where
  exists-Answered :
      (disk : Disk) (entry : Option Node)
      → I disk
      → Answered (λ _. I) I disk (with_disk disk (node_exists entry))
  exists-Answered disk none i = i
  exists-Answered disk (some (regular _)) i = i
  exists-Answered disk (some irregular) i = i

  open_node-Answered :
      (disk : Disk) (entry : Option Node) → I disk → Answered (λ _. I) I disk (open_node disk entry)
  open_node-Answered disk none i = i
  open_node-Answered disk (some (regular _)) i = i
  open_node-Answered disk (some irregular) i = i

module _ {I : Disk → Type 0} where
  pub regular_file_exists-Keeps : (p : Place) (s : Suffix) → Keeps I (regular_file_exists p s)
  unfolding regular_file_exists
  regular_file_exists-Keeps p s =
      access-Triple (λ disk. with_disk disk (node_exists (disk p s))) (λ disk i. i)
        (λ disk i. exists-Answered I disk (disk p s) i)

  pub idle-Keeps : Keeps I (effect (λ disk. disk))
  idle-Keeps = effect-Triple (λ disk. disk) (λ disk i. i) (λ disk i. i)

  pub sync_parent-Keeps : Keeps I sync_parent
  unfolding sync_parent
  sync_parent-Keeps = idle-Keeps

  pub restrict_file_permissions-Keeps :
      (p : Place) (s : Suffix) → Keeps I (restrict_file_permissions p s)
  unfolding restrict_file_permissions
  restrict_file_permissions-Keeps p s =
      regular_file_exists-Keeps p s then λ found. when-Keeps found idle-Keeps

  pub restrict_if_exists-Keeps : (p : Place) (s : Suffix) → Keeps I (restrict_if_exists p s)
  unfolding restrict_if_exists
  restrict_if_exists-Keeps p s = regular_file_exists-Keeps p s then λ found.
      when-Keeps found (restrict_file_permissions-Keeps p s)

  pub restrict_database_permissions-Keeps : (p : Place) → Keeps I (restrict_database_permissions p)
  unfolding restrict_database_permissions
  restrict_database_permissions-Keeps p = restrict_file_permissions-Keeps p plain then λ _.
      for_each-Keeps sidecars (restrict_if_exists p) (restrict_if_exists-Keeps p)

  pub read_file-Keeps : (p : Place) (s : Suffix) → Keeps I (read_file p s)
  unfolding read_file
  read_file-Keeps p s =
      access-Triple (λ disk. open_node disk (disk p s)) (λ disk i. i)
        (λ disk i. open_node-Answered I disk (disk p s) i)

  pub sync_file-Keeps : (p : Place) (s : Suffix) → Keeps I (sync_file p s)
  unfolding sync_file
  sync_file-Keeps p s = read_file-Keeps p s then λ _. idle-Keeps

  module _ (p : Place) (frame : Ignores I p) where
    pub put-Keeps : (s : Suffix) (entry : Option Node) → Keeps I (effect (put p s entry))
    put-Keeps s entry = effect-Triple (put p s entry) (λ disk i. i) (frame s entry)

    pub write_from-Keeps :
        (s : Suffix) (written rest : Text) → Keeps I (write_from p s written rest)
    unfolding write_from
    write_from-Keeps s written [] = pure-Triple tt (λ disk i. i)
    write_from-Keeps s written (c ∷ cs) = put-Keeps s (some (regular (written ++ c ∷ []))) then λ _.
        write_from-Keeps s (written ++ c ∷ []) cs

    pub remove_file_if_exists-Keeps : (s : Suffix) → Keeps I (remove_file_if_exists p s)
    unfolding remove_file_if_exists
    remove_file_if_exists-Keeps s =
        regular_file_exists-Keeps p s then λ found. when-Keeps found (put-Keeps s none)

    pub remove_database_sidecars-Keeps : Keeps I (remove_database_sidecars p)
    unfolding remove_database_sidecars
    remove_database_sidecars-Keeps =
        for_each-Keeps sidecars (remove_file_if_exists p) remove_file_if_exists-Keeps

    pub remove_database_set-Keeps : Keeps I (remove_database_set p)
    unfolding remove_database_set
    remove_database_set-Keeps =
        remove_file_if_exists-Keeps plain then λ _. remove_database_sidecars-Keeps

    pub create_private_file-Keeps : Keeps I (create_private_file p)
    unfolding create_private_file
    create_private_file-Keeps = regular_file_exists-Keeps p plain then λ found.
        fail_if-Keeps found (io "private file already exists") then λ _.
        put-Keeps plain (some (regular [])) then λ _. restrict_file_permissions-Keeps p plain

    apply_changes-Keeps :
        (changes : List (Suffix × Option Text)) → Keeps I (apply_changes p changes)
    unfolding apply_changes
    apply_changes-Keeps [] = pure-Triple tt (λ disk i. i)
    apply_changes-Keeps ((s, content) ∷ changes) =
        put-Keeps s (node_of content) then λ _. apply_changes-Keeps changes

    from_result-Keeps : {A : Type 0} (r : Result A) → Keeps I (from_result r)
    from_result-Keeps (ok a) = pure-Triple a (λ disk i. i)
    from_result-Keeps (err e) = raise-Triple e (λ disk i. i)

    execute_reply-Keeps : (reply : Reply) → Keeps I (execute_reply p reply)
    unfolding execute_reply
    execute_reply-Keeps reply =
        apply_changes-Keeps reply.changes then λ _. from_result-Keeps reply.answer

    pub execute-Keeps : (db : Sqlite) (statement : Statement) → Keeps I (execute db statement p)
    unfolding execute
    execute-Keeps db statement = record {
      holds = λ disk fate i. (execute_reply-Keeps (db.run statement (disk p))).holds disk fate i;
    }

  pub query-Keeps : {A : Type 0} (db : Sqlite) (f : View → A) (p : Place) → Keeps I (query db f p)
  unfolding query
  query-Keeps db f p =
      access-Triple (λ disk. ok (f (db.view (disk p)), disk)) (λ disk i. i) (λ disk i. i)

  module _ (p q : Place) (fp : Ignores I p) (fq : Ignores I q) where
    pub rename-Keeps : (s : Suffix) → Keeps I (rename p q s)
    unfolding rename
    rename-Keeps s =
        access-Triple (λ disk. renamed disk p q s (disk p s)) (λ disk i. i)
          (λ disk i. renamed-Answered I p q s fp fq disk (disk p s) i)

    pub move_file_if_exists-Keeps : (s : Suffix) → Keeps I (move_file_if_exists p q s)
    unfolding move_file_if_exists
    move_file_if_exists-Keeps s = regular_file_exists-Keeps p s then λ found. when-Keeps found (
        remove_file_if_exists-Keeps q fq s then λ _.
        rename-Keeps s then λ _. restrict_file_permissions-Keeps q s)

module _ {A : Type 0} (I : Disk → Type 0) (Q : A → Disk → Type 0) where
  after_drop-Judged :
      (e : Error) (o : Outcome ℕ) → Judged (λ _. I) I o → Judged Q I (after_drop e o)
  after_drop-Judged e (done _ disk fate) i = i
  after_drop-Judged e (failed _ disk fate) i = i
  after_drop-Judged e (killed disk) i = i

  dropping-Judged :
      (db : Sqlite) (p : Place)
      → Keeps I (execute db drop_connection p)
      → (o : Outcome A) → Judged Q I o
      → Judged Q I (elim o [
        | done a disk fate ↦ done a disk fate
        | failed e disk fate ↦ after_drop e (execute db drop_connection p disk fate)
        | killed disk ↦ killed disk
      ])
  dropping-Judged db p drop (done a disk fate) q = q
  dropping-Judged db p drop (failed e disk fate) i =
      after_drop-Judged e (execute db drop_connection p disk fate) (drop.holds disk fate i)
  dropping-Judged db p drop (killed disk) i = i

module _ {A : Type 0} {P I : Disk → Type 0} {Q : A → Disk → Type 0} where
  pub dropping-Triple :
      (db : Sqlite) (p : Place) (m : Action A)
      → Keeps I (execute db drop_connection p)
      → Triple P m Q I
      → Triple P (dropping db p m) Q I
  unfolding dropping
  dropping-Triple db p m drop t = record {
    holds = λ disk fate i. dropping-Judged I Q db p drop (m disk fate) (t.holds disk fate i);
  }

-- A query answers what it reads from the files.
pub query-Triple :
    {A : Type 0} {P : Disk → Type 0} (db : Sqlite) (f : View → A) (p : Place)
    → Triple P (query db f p) (λ a disk. P disk × (a ≡ f (db.view (disk p)))) P
unfolding query
query-Triple db f p =
    access-Triple (λ disk. ok (f (db.view (disk p)), disk)) (λ disk i. i) (λ disk i. (i, refl))
