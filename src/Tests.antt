-- ===== src/Tests.antt =====
-- Tests on sample data, and the application of the theorems to them.
mod Samples
mod Membership
mod Joining
mod Books
mod Payments
mod Voting
mod Events
mod Joins
mod Accounts
mod Talk
mod Runs
mod Reach
