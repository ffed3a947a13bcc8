-- ===== src/Wait.antt =====
-- Wait strategies (wait/*.go): what a strategy asks of the container that it waits for, the checks
-- that the strategies share, and one child for each strategy.
pub mod Target
pub mod Poll
pub mod Port
pub mod Exec
pub mod Exit
pub mod Health
pub mod File
pub mod Log
pub mod HostPort
pub mod Http
pub mod Sql
pub mod Nop
pub mod All
pub mod Termination
pub mod Readiness
