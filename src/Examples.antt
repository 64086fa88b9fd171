-- ===== src/Examples.antt =====
-- Runs of the store on concrete input, and the theorems applied to them.
pub mod CommandLine
pub mod Completion
pub mod Migrations
pub mod Permits
pub mod Offers
pub mod Scenario
pub mod States
pub mod Witnesses
