-- ===== src/Session.antt =====
-- Who may see which page: the middleware, and where the login page sends a user afterwards.
pub mod Middleware
pub mod Access
pub mod SafeRedirect
mod Tests
