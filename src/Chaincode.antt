-- ===== src/Chaincode.antt =====
-- The chaincode that every peer runs (chaincode/).
pub mod Define
pub mod Shim
pub mod Reply
pub mod Paging
pub mod Handler
pub mod Contract
pub mod Memory
mod Tests
