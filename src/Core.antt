-- ===== src/Core.antt =====
-- bbs/core: the parts that other components use.
pub mod Auth
pub mod EventBus
