-- ===== src/Http.antt =====
-- The two ways by which a request reaches the Go API: the browser's client and the server's proxy.
pub mod Proxy
pub mod Client
mod Tests
