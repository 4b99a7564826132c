-- ===== src/AppendEntries.antt =====
-- AppendEntriesExecutor (server/src/excutor/appendEntriesExecutor.cpp).
mod Follower
mod Leader
pub mod Conservation
pub mod Replication
pub mod Commit
pub mod CommitRule
pub mod Regress
pub mod Readable
pub mod Totality
pub mod StateMachine
pub mod Refinement
pub mod Loops
pub mod Indices
pub mod Finishing
pub mod Ready
pub mod LeaderTotality
pub mod LeaderReplay
pub mod LeaderRefinement
unfoldable pub use Follower.*
unfoldable pub use Leader.*
