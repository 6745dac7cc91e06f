-- ===== src/Validation/Fault.antt =====
-- validation/fault: the faults that a validation run injects.
pub mod Scheduler
pub mod Generate
