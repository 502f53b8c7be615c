-- ===== src/Admission.antt =====
-- Admission of new checks and uploads: backend/services/quotas.py.
pub mod Quotas
pub mod Ledger
pub mod Tests
