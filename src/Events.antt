-- ===== src/Events.antt =====
-- src/events: events, their invitations, attendance with its QR codes, and photos.
pub mod Schedule
pub mod Invitations
pub mod Photos
pub mod Sending
pub mod Attendance
