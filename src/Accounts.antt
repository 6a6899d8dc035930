-- ===== src/Accounts.antt =====
-- src/auth/accounts.rs: accounts, the store of them, and the choice of one for a request.
pub mod Floats
pub mod Account
pub mod Limits
pub mod Store
pub mod Select
pub mod Members
pub mod Integrity
pub mod Choice
pub mod Best
pub mod Emails
