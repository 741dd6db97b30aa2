-- ===== src/Mtc.antt =====
-- The model of the trigger board, src/mtc/MTCModel.cpp.
pub mod Packet
pub mod Link
pub mod Framing
pub mod Reading
pub mod Widths
pub mod File
pub mod Settings
pub mod Serial
pub mod Shift
pub mod Dacs
pub mod Delays
pub mod Lines
pub mod Load
mod Tests
