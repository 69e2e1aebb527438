-- ===== src/Plugins.antt =====
-- bbs/plugins: the plugins whose own logic is modelled.
pub mod Chat
