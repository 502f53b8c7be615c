-- ===== src/Pipeline.antt =====
-- The stages of the analysis pipeline: backend/services/pipeline/.
pub mod Analysis
