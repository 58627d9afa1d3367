-- ===== src/Bencode.antt =====
-- The bencode reader and writer of src/bencode.cpp, src/bencode.h and src/bencode_offset.cpp.
pub mod Spec
pub mod Encode
pub mod Decode
pub mod RoundTrip
pub mod Tree
pub mod Stream
pub mod Values
pub mod Offset
pub mod Generic
pub mod Compact
pub mod Nodes
pub mod Plain
pub mod Wildcards
mod Tests
