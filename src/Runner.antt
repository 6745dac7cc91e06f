-- ===== src/Runner.antt =====
-- cmd/runner: the program that runs the cells of a bench.
pub mod Resume
pub mod ClientLock
