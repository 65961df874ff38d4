-- ===== src/Accounts.antt =====
-- Account management (src/application/admin_service.py).
pub mod Tables
pub mod Service
pub mod Calls
pub mod Guard
