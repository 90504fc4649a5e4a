-- ===== src/Communication.antt =====
-- src/communication: polls, chat, announcements and notifications.
pub mod Polls
pub mod Announcements
pub mod Chat
pub mod Notifications
