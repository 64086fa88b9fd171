-- ===== src/Migration.antt =====
-- crates/stateful-store/src/migration_v2.rs: a database file is opened, an old one is migrated, and a
-- migration that was cut short is undone.
pub mod Disk
pub mod Stage
pub mod Files
pub mod LegacySchema
pub mod Sqlite
pub mod Layout
pub mod Manifest
pub mod LegacyMarker
pub mod Undo
pub mod Run
pub mod Opening
pub mod Triple
pub mod Keeps
pub mod Changes
pub mod Safe
pub mod Statements
pub mod Candidate
pub mod Backup
pub mod Replace
pub mod Recover
pub mod Upgrade
pub mod OldLayout
pub mod Open
pub mod Calm
pub mod CalmFiles
pub mod Finish
