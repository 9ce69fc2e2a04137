-- ===== src/Rpc.antt =====
-- rpc: connections, the server and the calls of the client.
pub mod Connection
pub mod Context
pub mod Server
pub mod Client
pub mod Frames
pub mod Calls
pub mod Results
pub mod Stub
mod Trips
mod Tests
