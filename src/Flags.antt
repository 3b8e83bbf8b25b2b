-- ===== src/Flags.antt =====
-- backend/app/services/flags.py: how flag configurations are built, stored, changed and read.
pub mod Allocations
pub mod Building
pub mod Storage
pub mod Store
mod Tests
pub mod Tables
pub mod Lookup
