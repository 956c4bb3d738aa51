-- ===== src/Canonical.antt =====
-- oat/canonical.py and oat/digest.py: the canonical encoding of evidence and its digest.
pub mod Json
pub mod Text
pub mod Strip
pub mod Printed
pub mod Digest
