-- ===== src/Utils.antt =====
-- utils/: the helpers of the connections.
pub mod Async
pub mod Buf
pub mod Pools
pub mod Cleaner
pub mod Die
pub mod Pipe
pub mod Expires
pub mod Domains
mod Tests
