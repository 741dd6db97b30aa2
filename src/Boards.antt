-- ===== src/Boards.antt =====
-- Tests of the boards, src/tests: what each asks the XL3 for, and the document that it makes of the
-- answer for the database. The identifiers that a final test adds to a document are left out.
pub mod Registers
pub mod Identity
pub mod Curve
pub mod Discriminator
pub mod Volts
pub mod Ranges
pub mod Trigger
pub mod Pedestals
pub mod Stopping
pub mod Passing
mod Tests
