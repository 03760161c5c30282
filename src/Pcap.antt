-- ===== src/Pcap.antt =====
-- demo/infra/shared/pcap/analyze-pcap.py: the Kafka wire format as far as the packet analysis reads
-- it, and what the analysis adds up.
pub mod Result
pub mod Bytes
pub mod Varint
pub mod Fields
pub mod Messages
pub mod Records
pub mod Compression
pub mod Batches
pub mod Totals
pub mod Capture
pub mod Network
pub mod Allocation
pub mod Topics
pub mod Tests
