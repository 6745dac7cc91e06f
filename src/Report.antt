-- ===== src/Report.antt =====
-- The report package.
pub mod Overlap
