-- ===== src/Qualification.antt =====
-- oat/qualification: the synthetic targets, a candidate's run on one, and the selection.
pub mod Target
pub mod Candidate
pub mod Selection
pub mod Probes
