-- ===== src/Transfer.antt =====
-- internal/transfer: the transfer service.
pub mod Address
pub mod Service
pub mod Trustline
pub mod Reads
pub mod Outcome
pub mod Gate
