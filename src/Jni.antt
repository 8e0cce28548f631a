-- ===== src/Jni.antt =====
-- jni_backend/oracle_utils_jni.c: the texts that the JDBC backend exchanges with Java, and its
-- savepoints. A C string is the list of its bytes without the zero that ends it.
pub mod Hex
pub mod Identifier
pub mod Fields
pub mod Types
pub mod Savepoints
pub mod Sessions
