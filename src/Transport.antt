-- ===== src/Transport.antt =====
-- bbs/transport: the parts of the transports that are not sockets.
pub mod Agwpe
pub mod Kiss
