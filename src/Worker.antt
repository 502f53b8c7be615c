-- ===== src/Worker.antt =====
-- The worker process: backend/services/worker/.
pub mod Runtime
pub mod HandBackSteps
pub mod HandBack
pub mod Tests
