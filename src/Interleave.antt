-- ===== src/Interleave.antt =====
-- interleave/schedule.go and interleave/archplan.go.
pub mod Schedule
pub mod Plan
