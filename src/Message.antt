-- ===== src/Message.antt =====
-- rpc/message: the frames of the RPC protocol.
pub mod Wire
pub mod Request
pub mod Response
mod Tests
