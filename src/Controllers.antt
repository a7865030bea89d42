-- ===== src/Controllers.antt =====
-- controllers/: the reconcilers of the custom resources.
pub mod Helper
pub mod Targets
pub mod Client
pub mod Reconcile
pub mod Channel
pub mod Joiner
pub mod Stream
pub mod Table
pub mod Processor
pub mod ClusterStream
pub mod Kinds
pub mod Owned
pub mod Cache
pub mod Runs
