-- ===== src/Xmodem.antt =====
-- src/xmodem-sender.ts: the sending half of the XMODEM protocol.
pub mod Packet
pub mod Wait
pub mod Send
pub mod Receiver
pub mod Output
pub mod Rounds
pub mod Blocks
pub mod Crc
pub mod Transmission
pub mod Delivery
pub mod Responsive
pub mod Timeout
mod Tests
