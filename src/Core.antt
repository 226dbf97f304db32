-- ===== src/Core.antt =====
-- core/: the state machine.
pub mod World
pub mod Machine
pub mod DedupEngine
pub mod WhatsUp
mod Tests
mod WhatsUpTests
