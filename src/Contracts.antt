-- ===== src/Contracts.antt =====
-- The contract checks of packages/contracts/.
pub mod Compat
pub mod Gate
pub mod Tests
