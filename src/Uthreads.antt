-- ===== src/Uthreads.antt =====
-- ex2/uthreads.cpp and ex2/uthreads.h: user-level threads.
pub mod Ids
pub mod Machine
pub mod Calls
pub mod Invariant
pub mod Dispatch
pub mod Switch
pub mod Spawn
pub mod Blocking
pub mod Sync
pub mod Release
pub mod Terminate
pub mod Run
pub mod Outcomes
pub mod Lifecycle
pub mod Accounts
pub mod Rejected
pub mod Dangling
pub mod Wakeup
pub mod Schedule
pub mod Timing
pub mod Interrupted
pub mod Exit
mod States
mod Examples
