-- ===== src/Services.antt =====
-- bbs/services: the external services.
pub mod Dispatcher
