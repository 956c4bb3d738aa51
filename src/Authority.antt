-- ===== src/Authority.antt =====
-- oat/authority: who may do what, and when.
pub mod Delegation
pub mod CurrentState
pub mod Authorization
