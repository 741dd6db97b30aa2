-- ===== src/Xl3.antt =====
-- The XL3 crate controllers, src/xl3/XL3Link.cpp and src/xl3/XL3Model.cpp: the packets, what the
-- receiving thread does with each, the queues, and the commands that send a packet and wait for the
-- answer. The packets that will arrive are a list in the state, so that a statement about every
-- state is one about every order of arrivals.
pub mod Packet
pub mod Task
pub mod Mega
pub mod Bundles
pub mod Walks
pub mod Link
pub mod Arrivals
pub mod Waiting
pub mod Fetch
pub mod Model
pub mod Calibration
pub mod Crate
pub mod Replies
pub mod Sending
pub mod Results
pub mod Collect
pub mod Ordered
pub mod Readout
pub mod Cmds
mod Tests
