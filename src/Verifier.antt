-- ===== src/Verifier.antt =====
-- oat/verifier: what a run amounts to.
pub mod Consequence
pub mod V1
