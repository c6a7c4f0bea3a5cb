-- ===== src/Apiserver.antt =====
-- The REST server (apiserver/).
pub mod Define
pub mod Host
pub mod Crypto
pub mod Message
pub mod Sdk
pub mod Handler
pub mod Main
pub mod Sample
mod Tests
