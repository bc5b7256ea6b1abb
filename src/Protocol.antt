-- ===== src/Protocol.antt =====
-- The wire protocol, protocol.py: registry, header, segmentation, reassembly.
pub mod Errors
pub mod Registry
pub mod Struct
pub mod Header
pub mod Segment
pub mod Assembler
pub mod Envelope
pub mod Encode
pub mod Decode
