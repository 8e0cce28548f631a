-- ===== src/Utils.antt =====
-- oracle_utils.c: statements, savepoints and transactions of a connection to Oracle through OCI.
pub mod Statements
pub mod Transactions
pub mod Callbacks
pub mod Nesting
pub mod Backends
pub mod Cache
