-- ===== src/Fdw.antt =====
-- oracle_fdw.c: the parts of the foreign data wrapper that do not depend on PostgreSQL's planner.
pub mod Literals
pub mod Columns
pub mod Options
pub mod Modify
