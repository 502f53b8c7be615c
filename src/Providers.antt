-- ===== src/Providers.antt =====
-- Budgets of the providers: backend/services/provider_budgets.py.
pub mod Speech
pub mod Expiry
pub mod Recovery
pub mod Slots
pub mod SlotTables
pub mod Capacity
pub mod Running
pub mod Leases
pub mod Tests
