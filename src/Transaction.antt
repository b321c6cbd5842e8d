-- ===== src/Transaction.antt =====
-- class DpaTransaction2 (Dpa/DpaTransaction2.h and .cpp): one request from its creation to the
-- error code that its user reads. Every section that the code runs under the mutex is one function
-- of the state; what other threads do while execute() waits is a sequence of such steps.
pub mod Types
pub mod Create
pub mod Execute
pub mod Receive
pub mod Timeouts
pub mod Steps
pub mod Sections
pub mod Matches
pub mod Recorded
pub mod Requests
pub mod Honesty
pub mod Deliver
pub mod Invariant
pub mod Outcome
pub mod Progress
pub mod Exchange
pub mod Broadcast
pub mod Abort
mod Samples
mod Tests
mod ExchangeTests
