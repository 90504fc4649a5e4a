-- ===== src/Membership.antt =====
-- src/membership: the life of a membership.
pub mod StateMachine
pub mod Access
pub mod Member
pub mod JoinRequests
pub mod Roles
pub mod Mahbers
pub mod Listings
