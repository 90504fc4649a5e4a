-- ===== src/Auth.antt =====
-- src/auth: accounts, passwords and the reset of a forgotten password.
pub mod Accounts
pub mod Passwords
