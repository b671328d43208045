-- ===== src/Pe.antt =====
-- The PE backend under src/backends/pe: the placement of a COFF object's sections.
pub mod ObjectFile
pub mod ImageLayout
mod Tests
