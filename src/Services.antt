-- ===== src/Services.antt =====
-- src/services: the in-memory services of the web server.
pub mod ConsoleHub
pub mod SessionStore
