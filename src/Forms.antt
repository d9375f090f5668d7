-- ===== src/Forms.antt =====
-- The dialogs and drawers that edit what the Go API stores.
pub mod Base
pub mod Repo
pub mod Project
pub mod Notification
pub mod Integration
mod Tests
