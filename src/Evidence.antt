-- ===== src/Evidence.antt =====
-- oat/evidence: the chain of evidence behind a disposition, and the sealed run package.
pub mod Graph
pub mod Package
pub mod Replay
