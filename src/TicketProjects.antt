-- ===== src/TicketProjects.antt =====
-- apps/web/lib/ticket-projects and apps/web/components/ticket-projects: what a ticket project
-- stores, and the drawer that edits it.
pub mod StatusMapping
pub mod CreateConfig
pub mod ContentTemplates
mod Tests
