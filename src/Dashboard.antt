-- ===== src/Dashboard.antt =====
-- apps/web/components/dashboard and the page sizes: what the dashboard shows of polling.
pub mod PageSize
pub mod PollHistory
pub mod Badges
mod Tests
