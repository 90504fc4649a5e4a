-- ===== src/System.antt =====
-- The services together: the calls that reach the database in any order.
pub mod Guarded
pub mod Rows
pub mod Jobs
pub mod Money
pub mod Gatherings
pub mod Talk
pub mod Accounts
pub mod Members
pub mod History
pub mod Reach
pub mod Growth
