-- ===== src/Jobs.antt =====
-- The durable job queue: backend/services/jobs/.
pub mod States
pub mod Retries
pub mod Tables
pub mod Spec
pub mod Queue
pub mod Fixtures
pub mod Milliseconds
pub mod Tests
pub mod PolicyTests
