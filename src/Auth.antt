-- ===== src/Auth.antt =====
-- Accounts and access: services/auth.py and api/auth.py.
pub mod Tokens
pub mod Guards
pub mod Accounts
pub mod LastAdmin
pub mod Calls
pub mod Access
pub mod Changes
pub mod Sessions
pub mod Browser
