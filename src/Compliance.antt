-- ===== src/Compliance.antt =====
-- internal/compliance: screening of transfers, and the review of held ones.
pub mod Screener
pub mod Restrictive
pub mod Levenshtein
pub mod Repo
pub mod Sanctions
pub mod Velocity
pub mod Service
pub mod Review
