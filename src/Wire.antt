-- ===== src/Wire.antt =====
-- The wire formats under util/: parser and serializer, checksum, and the headers.
pub mod Parser
pub mod Checksum
pub mod Ethernet
pub mod Arp
pub mod Ipv4
pub mod Segment
pub mod Adapter
pub mod Filter
pub mod Tunnel
pub mod Reads
pub mod Fields
pub mod Headers
pub mod Payloads
pub mod Remains
pub mod Messages
pub mod Datagrams
pub mod Sums
pub mod Segments
pub mod SegmentParse
pub mod SegmentTrip
mod Runs
