-- ===== src/Eventserver.antt =====
-- The listener for the ledger's events (eventserver/).
pub mod Queue
pub mod Progress
pub mod Recover
pub mod Filter
pub mod Listen
pub mod Alias
pub mod Main
mod Tests
