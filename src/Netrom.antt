-- ===== src/Netrom.antt =====
-- bbs/netrom: virtual circuits, the circuit manager of a crosslink, routing and the gateway guard.
pub mod Circuit
pub mod Transfer
pub mod Manager
pub mod Gateway
pub mod Router
pub mod Node
