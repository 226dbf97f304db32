-- ===== src/Helper.antt =====
-- helper/: the timers, the pool of processes, and the question to the user.
pub mod PTimer
pub mod Config
pub mod Shell
pub mod Tar
pub mod Ask
pub mod Parallel
mod Tests
