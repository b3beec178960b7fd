-- ===== src/Reconcile.antt =====
-- internal/reconcile/reconcile.go: what the ledger says is compared with what Horizon says.
pub mod Verify
pub mod Pending
pub mod Recover
pub mod Holds
pub mod Audit
pub mod Audited
pub mod Runs
pub mod Settled
pub mod Corrections
