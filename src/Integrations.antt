-- ===== src/Integrations.antt =====
-- apps/web/lib/integrations: the kinds of integrations, and how a secret is stored.
pub mod Kinds
pub mod Secret
