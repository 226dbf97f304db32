-- ===== src/Interfaces.antt =====
-- interfaces/: the commands of AFL and the injection of failures.
pub mod Env
pub mod Afl
pub mod FailureInjection
pub mod Sample
mod Tests
