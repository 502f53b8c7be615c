-- ===== src/Reports.antt =====
-- Report versions: backend/services/reports.py.
pub mod Versions
pub mod Tests
