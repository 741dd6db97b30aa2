-- ===== src/Stream.antt =====
-- The receiving half of the links: src/xl3/XL3Link.cpp `XL3Link::RecvCallback` drains the socket
-- into a local buffer and cuts the bytes into packets of a fixed size. The size, the length of the
-- buffer and what is done with a whole packet are parameters here.
pub mod Reader
pub mod Cutter
pub mod Bytes
pub mod Spec
pub mod Rounds
pub mod Refine
pub mod Sequence
mod Tests
