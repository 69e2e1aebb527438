-- ===== src/Ax25/NetromFrame.antt =====
-- bbs/ax25/netrom_frame.py: the data types of the NET/ROM codec. A byte string is the list of its
-- bytes. The masks and shifts are written as `/` and `%`, which agree with them on bytes.
pub mod Wire
pub mod Header
pub mod Frame
pub mod Nodes
pub mod Classifier
pub mod WireLaws
pub mod HeaderLaws
pub mod FrameLaws
pub mod NodesLaws
pub mod NodesSize
pub mod ClassifierLaws
mod Tests
