-- ===== src/Validation.antt =====
-- The validation package.
pub mod FanIn
pub mod Fault
pub mod Markov
pub mod Shrinker
pub mod WsEcho
pub mod Evaluator
