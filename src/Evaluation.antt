-- ===== src/Evaluation.antt =====
-- backend/app/evaluation: the pure engine that decides which variation a subject gets.
pub mod Value
pub mod Operators
pub mod Hashing
pub mod Models
pub mod Engine
mod Tests
