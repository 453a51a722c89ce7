-- ===== src/Protocol.antt =====
-- The wire protocol of src/protocol.cpp: frames with a length prefix, and the two bodies.
pub mod Frame
pub mod Encode
pub mod Answer
pub mod Members
pub mod AckRoundTrip
pub mod Decode
pub mod Ends
pub mod Clean
