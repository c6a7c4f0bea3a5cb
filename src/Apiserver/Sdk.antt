-- ===== src/Apiserver/Sdk.antt =====
-- apiserver/sdk/sdk.go: the server's calls of the Fabric network.
pub mod Peers
pub mod Keys
pub mod Events
pub mod Blocks
pub mod BlockQuery
pub mod Documents
pub mod Query
mod Tests
