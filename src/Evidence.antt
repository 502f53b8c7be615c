-- ===== src/Evidence.antt =====
-- The evidence stages: backend/services/evidence/.
pub mod Records
pub mod Overall
pub mod Router
pub mod Replies
pub mod Assessor
pub mod Citations
pub mod CitationRules
pub mod Merge
pub mod Stage
pub mod Fixtures
pub mod Tests
