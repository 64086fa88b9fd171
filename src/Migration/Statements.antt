-- ===== src/Migration/Statements.antt =====
-- What a statement of SQLite keeps of the files of its own database, and what they are after it.
use stateful_core.Base.{ℕ, Text, Option, List, [], ◌∷◌, ◌≡◌, refl, sym, ap, ◌∙◌, subst}
use mathlib.Core.Path.{fun_ext}
use stateful_core.Migration.Changes.{place_index_same}
use stateful_core.Migration.Disk.{
  Place, Node, main, candidate, Suffix, Disk, FileSet, put, put_suffix, Result, ok, err,
}
use stateful_core.Migration.Sqlite.{
  Sqlite, Statement, Reply, node_of, apply_changes, from_result, execute_reply, execute,
}
use stateful_core.Migration.Run.{run}
use stateful_core.Migration.Triple.{
  Triple, Keeps, pure-Triple, raise-Triple, ◌then◌, effect-Triple, weaken-Triple,
}
use stateful_core.Migration.Keeps.{Ignores}
use stateful_core.Migration.Safe.{AfterEach, after_changes}

module _ {P : Disk → Type 0} where
  answer-Keeps : (r : Result ℕ) → Keeps P (from_result r)
  answer-Keeps (ok a) = pure-Triple a (λ disk i. i)
  answer-Keeps (err e) = raise-Triple e (λ disk i. i)

  answer-Triple : (r : Result ℕ) → Triple P (from_result r) (λ a disk. P disk × (r ≡ ok a)) P
  answer-Triple (ok a) = pure-Triple a (λ disk i. (i, refl))
  answer-Triple (err e) = raise-Triple e (λ disk i. i)

module _ (P : Disk → Type 0) (S : FileSet → Type 0) (frame : Ignores P main) where
  -- Something holds of the database, and something of the other files.
  abbrev pub Holding : Disk → Type 0
  Holding disk = P disk × S (disk main)

  apply_changes-Holding :
      (set : FileSet) (changes : List (Suffix × Option Text))
      → AfterEach S set changes
      → Triple
          (λ disk. Holding disk × (disk main ≡ set))
          (apply_changes main changes)
          (λ _. Holding)
          Holding
  unfolding apply_changes
  apply_changes-Holding set [] h = pure-Triple tt (λ disk i. i.0)
  apply_changes-Holding set ((s, content) ∷ changes) h =
      effect-Triple (put main s (node_of content)) (λ disk i. i.0)
        (λ disk i. (
          (
            frame s (node_of content) disk i.0.0,
            subst (λ t. S (put_suffix s (node_of content) t)) (sym i.1) h.0,
          ),
          ap (put_suffix s (node_of content)) i.1,
        ))
      then λ _. apply_changes-Holding (put_suffix s (node_of content) set) changes h.1

  execute_reply-Holding :
      (set : FileSet) (reply : Reply)
      → AfterEach S set reply.changes
      → Triple
          (λ disk. Holding disk × (disk main ≡ set))
          (execute_reply main reply)
          (λ _. Holding)
          Holding
  unfolding execute_reply
  execute_reply-Holding set reply h =
      apply_changes-Holding set reply.changes h then λ _. answer-Keeps reply.answer

  module _ (db : Sqlite) (statement : Statement)
      (law : (set : FileSet) → S set → AfterEach S set (db.run statement set).changes) where
    pub execute-Holding : Keeps Holding (execute db statement main)
    unfolding execute
    execute-Holding = record {
      holds = λ disk fate i.
          (execute_reply-Holding (disk main) (db.run statement (disk main))
              (law (disk main) i.1)).holds
            disk fate (i, refl);
    }

    pub run-Holding : Keeps Holding (run db statement main)
    unfolding run
    run-Holding = execute-Holding then λ _. pure-Triple tt (λ disk i. i)

put_here :
    (p : Place) (s : Suffix) (entry : Option Node) (disk : Disk)
    → put p s entry disk p ≡ put_suffix s entry (disk p)
put_here p s entry disk = fun_ext (λ t. rw (place_index_same p) refl)

module _ {P : Disk → Type 0} (p : Place) (frame : Ignores P p) where
  -- After changes of the files of a place, they are those that the changes leave.
  pub apply_changes-After :
      (set : FileSet) (changes : List (Suffix × Option Text))
      → Triple
          (λ disk. P disk × (disk p ≡ set))
          (apply_changes p changes)
          (λ _ disk. P disk × (disk p ≡ after_changes set changes))
          P
  unfolding apply_changes
  apply_changes-After set [] = pure-Triple tt (λ disk i. i)
  apply_changes-After set ((s, content) ∷ changes) =
      effect-Triple (put p s (node_of content)) (λ disk i. i.0)
        (λ disk i. (
          frame s (node_of content) disk i.0,
          put_here p s (node_of content) disk ∙ ap (put_suffix s (node_of content)) i.1,
        ))
      then λ _. apply_changes-After (put_suffix s (node_of content) set) changes

module _ {P : Disk → Type 0} (frame : Ignores P candidate) where
  execute_reply-After :
      (set : FileSet) (reply : Reply)
      → Triple
          (λ disk. P disk × (disk candidate ≡ set))
          (execute_reply candidate reply)
          (λ a disk.
            (P disk × (disk candidate ≡ after_changes set reply.changes)) × (reply.answer ≡ ok a))
          P
  unfolding execute_reply
  execute_reply-After set reply = apply_changes-After candidate frame set reply.changes then λ _.
      weaken-Triple _ (λ disk i. i) (λ _ disk i. i) (λ disk i. i.0) (answer-Triple reply.answer)

  -- After a statement on the candidate, its files are those that the statement leaves.
  pub execute-After :
      {X : FileSet → Type 0} (db : Sqlite) (statement : Statement) (Y : ℕ → FileSet → Type 0)
      → ((set : FileSet) (a : ℕ)
          → X set
          → (db.run statement set).answer ≡ ok a
          → Y a (after_changes set (db.run statement set).changes))
      → Triple
          (λ disk. P disk × X (disk candidate))
          (execute db statement candidate)
          (λ a disk. P disk × Y a (disk candidate))
          P
  unfolding execute
  execute-After db statement Y law = record {
    holds = λ disk fate i.
        let set = disk candidate in
        let reply = db.run statement set in
        (weaken-Triple (execute_reply candidate reply) (λ disk' j. j)
            (λ a disk' j. (j.0.0, subst (Y a) (sym j.0.1) (law set a i.1 j.1))) (λ disk' j. j)
            (execute_reply-After set reply)).holds
          disk fate (i.0, refl);
  }
