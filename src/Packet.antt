-- ===== src/Packet.antt =====
-- The packets of the DPA protocol as C declares them, in include/DPA.h and include/DpaMessage.h: the
-- layout of each structure, and the members of a message that a user reads and writes through
-- DpaPacket().
pub mod Layout
pub mod General
pub mod Coordinator
pub mod NodeOs
pub mod Peripherals
pub mod Union
pub mod Access
pub mod Places
pub mod Members
mod Tests
