-- ===== src/Events.antt =====
-- The event handlers of src/events/.
pub mod Passwords
pub mod Provider
pub mod Certificates
pub mod Backup
pub mod Restore
pub mod Upgrade
pub mod Hooks
