-- ===== src/Extraction.antt =====
-- Incremental extraction: backend/services/pipeline/incremental.py.
pub mod Runs
pub mod Budget
pub mod Fixtures
pub mod Tests
pub mod IntakeTests
pub mod Windows
pub mod Sorts
pub mod Equality
pub mod Intake
pub mod Taking
pub mod Replays
pub mod Upstream
pub mod Stored
pub mod Submissions
