-- ===== src/Handler.antt =====
-- class DpaHandler2 and its Imp (Dpa/DpaHandler2.h and .cpp): the queue of transactions, the pending
-- one, the settings that new transactions get, and the user's message handlers. The public class hands
-- every call on to Imp.
pub mod Types
pub mod Settings
pub mod Registry
pub mod Submit
pub mod Dispatch
pub mod Defaults
pub mod Handlers
pub mod Overload
pub mod Routing
pub mod EndToEnd
pub mod Configured
pub mod Steps
pub mod Pending
pub mod Refinement
pub mod Silence
pub mod Forms
pub mod Histories
pub mod Lifting
pub mod EachTransaction
mod Counting
mod Parts
pub mod OneAtATime
pub mod Uninterrupted
pub mod OnWire
pub mod SpiWire
mod Tests
mod ThreadTests
mod NodeTests
mod SilenceTests
mod EachTests
