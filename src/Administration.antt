-- ===== src/Administration.antt =====
-- src/super-admin and the guards of src/membership, src/auth and src/events.
pub mod SuperAdmin
pub mod Guards
