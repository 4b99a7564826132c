-- ===== src/Server.antt =====
-- AIOServer (server/src/aIOServer.cpp): the broadcasts, the dispatch of messages and the event loop.
mod Defs
mod Broadcast
mod Process
mod EventLoop
mod Construct
pub mod Failure
mod Beats
pub mod Leadership
pub mod Positions
mod FirstBeat
pub mod Winning
pub mod Keeping
pub mod Terms
pub mod Slots
pub mod Replicate
pub mod Backoff
pub mod Timeouts
unfoldable pub use Defs.*
unfoldable pub use Broadcast.*
unfoldable pub use Process.*
unfoldable pub use EventLoop.*
unfoldable pub use Construct.*
