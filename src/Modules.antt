-- ===== src/Modules.antt =====
-- modules/: prepared containers of other systems.
pub mod Postgres
