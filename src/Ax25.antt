-- ===== src/Ax25.antt =====
-- bbs/ax25: addresses, the KISS framing and the NET/ROM frame codec.
pub mod NetromFrame
pub mod Address
pub mod Kiss
