-- ===== src/Lib.antt =====
-- stateful_core coordinates agents that work on one tree of files. A task reads resources, which gives
-- it evidence; with current evidence it takes an exclusive lease on what it is about to write, or
-- waits in a queue until it is offered one. This library models that coordination and its checks.
--
-- Parts, from the repository's root:
-- * crates/stateful-core/src/coordination.rs is Coordination: settings, resource keys and
--   observations, the transition tables (`can_transition_to`) and the mutation operations.
-- * crates/stateful-core/src/path.rs is Path, with `validated_relative_path` of resource.rs.
-- * crates/stateful-core/src/resource.rs is Resource: `ResourceSet::new` is `new_set`, and
--   `resource_keys_overlap` and `path_contains` keep their names. Resource/Operation, Start and
--   Transition are `validate_operation_start` and `validate_operation_transition`, in the monad of
--   Resource/Error.
-- * crates/stateful-store/src/models_v2.rs and schema_v2.rs are Store/Models and Store/Tables: a record
--   for each input, result and table, and `Db`, the whole database.
-- * crates/stateful-store/src/store_v2.rs is the rest of Store. Store/Accepted is `accepted_command`:
--   it looks for a receipt, else expires tasks and leases (Expiry), promotes waiters (Queue), runs the
--   operation of the command and writes journal and receipt. The operations stand in Tasks
--   (`task_start`, `task_heartbeat`, `end_task`), Reads, Prepare (`write_prepare`, with the attempt in
--   Attempt), Activate (`lease_activate`, `lease_release`) and Complete (`write_complete`); they share
--   Context, Time, Evidence, Observations, Leases, Queue and Audit. Maintain has `maintain` and the
--   queries.
--
-- * crates/stateful-store/src/migration_v2.rs is Migration. Disk has the files that `MigrationPaths`
--   names, an action on them, and its `Fate`: each access proceeds, fails, or never comes about because
--   the process is killed. Files, Manifest, Run (`migrate_legacy`), Undo
--   (`recover_interrupted_migration`) and Opening (`open_file`, `open_locked`) are the code; Sqlite and
--   Layout what it asks of SQLite. Triple, Keeps and Changes are the rules by which a predicate is carried
--   along an action to its end and to every point where it can be cut short, Calm those for runs that are
--   not disturbed. Safe has the states and what is taken for granted of SQLite; Statements, Backup,
--   Candidate, Replace, Upgrade, Recover, OldLayout, Open and Finish the proofs.
-- * crates/stateful-cli/src/shell_command.rs is Cli/Words, sandbox/parse.rs beside it is Cli/Words/Quote;
--   Cli/Scan is the loop over characters.
--
-- A handler is a `Tx` (Store/Tx), from a database to a result and a database. An error drops the
-- database, as the rollback of the transaction does. Store/Steps has one rule for each way to build a
-- `Tx`, by which a relation between the databases before and after is carried through every handler
-- (`Quiet`: all primitive writes but those that add a lease, a leased resource or a request; `Grows`:
-- these too). Store/Steps/Reading has the actions that only read, after which a handler's tests are
-- tests of the database that it began with (Activate/Offer, Prepare/Ready, Complete/Once).
-- Store/Exclusion states who holds what, and carries it through all commands; Examples runs the store,
-- the migration and the command line on concrete input.
--
-- Conventions. Text is a list of code points. JSON columns hold the value that they encode. Unique
-- indexes, primary keys and the foreign key of leased resources are checked where rows are inserted,
-- and deleting a lease deletes its resources. An SQL statement over several rows is one update or filter
-- of the table, in its order of insertion. Timestamps stay texts and are compared as texts where the
-- SQL does; RFC 3339 parsing and formatting, the supply of identifiers (`Uuid::new_v4`) and the digest of
-- a command's payload are the fields of `Env`. An instant is a number of nanoseconds, without its
-- offset; an addition or subtraction that leaves the range of `OffsetDateTime` panics. The overflow
-- checks of `checked_add` are written out; SQLite's own 64 bit limits are not. Loops are structural
-- recursion, so there is no fuel. Messages of errors leave out the parts that are computed.
--
-- In a migration a file that is written grows byte by byte, an error or a kill can come at every access,
-- and what was done stays done: a loss of power that undoes unsynchronised writes is not modelled, so a
-- synchronisation changes nothing, nor are permission bits. SQLite changes only the files of its own
-- database, one after the other; a backup is such a sequence on the files of its destination. `IsSound`
-- says what is taken for granted of it where the old data is concerned, `KeepsMarker` where a database of
-- version 2 is.
--
-- Not modelled: the resolver of resource.rs and its hashing (file system, blake3), stateful-server
-- (HTTP), the rest of stateful-cli (processes, files, HTTP), stateful-bench, and the editor extension.
pub mod Base
pub mod Coordination
pub mod Cli
pub mod Migration
pub mod Examples
pub mod Path
pub mod Resource
pub mod Store
