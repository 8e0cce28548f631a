-- ===== src/Tests.antt =====
-- Tests: the code at concrete inputs, and the theorems applied to them.
pub mod Convert
pub mod Jni
pub mod Sessions
pub mod Utils
pub mod Literals
pub mod Options
pub mod Modify
pub mod Cache
