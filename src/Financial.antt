-- ===== src/Financial.antt =====
-- src/financial: money in and out of an organization.
pub mod Ledger
pub mod Fines
pub mod Payouts
pub mod Expenses
pub mod Payments
pub mod Lotteries
pub mod Joining
pub mod Callback
pub mod Reports
