-- ===== src/Cli.antt =====
-- crates/stateful-cli: the parts that compute on texts.
pub mod Result
pub mod Scan
pub mod Words
