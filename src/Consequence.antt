-- ===== src/Consequence.antt =====
-- oat/consequence: protected consequences and the sink that commits them.
pub mod Model
pub mod Sink
