-- ===== src/Asr.antt =====
-- Hosted speech recognition: backend/services/asr/.
pub mod Failures
pub mod Usage
pub mod Reservations
pub mod Fallback
pub mod Windows
pub mod Resend
pub mod LedgerRows
pub mod Crash
pub mod Fixtures
pub mod Tests
