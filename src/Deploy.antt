-- ===== src/Deploy.antt =====
-- internal/deploy: drafts, the rollback to a snapshot, and the pipeline that pushes a configuration.
pub mod Json
pub mod Keys
pub mod Merge
pub mod Snapshot
pub mod Retry
pub mod Effective
pub mod Commit
pub mod Support
pub mod Pipeline
pub mod NodeUp
