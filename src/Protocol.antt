-- ===== src/Protocol.antt =====
-- The wire formats under src/protocol: scanning leaves, the line-oriented codecs and the
-- framing of embedded descriptors.
pub mod Scanner
pub mod Codec
pub mod GroupDescriptor
pub mod GenerationOffer
pub mod DescriptorSection
pub mod WasmOffer
mod Tests
