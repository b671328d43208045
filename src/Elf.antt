-- ===== src/Elf.antt =====
-- src/backends/elf: the pages of replaced code on Linux.
pub mod Arena
pub mod CodePages
pub mod Pools
mod Tests
