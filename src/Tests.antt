-- ===== src/Tests.antt =====
-- The theorems at concrete inputs, and runs of the model.
mod Inputs
mod Elections
mod Transactions
mod Replications
mod Servers
mod Shards
mod Starts
mod Replays
mod Launches
mod Rounds
mod Beats
mod Atomicity
mod Routing
mod Locks
mod Positions
mod Winning
