-- ===== src/Format.antt =====
-- The kinds of data in an ELF file: classes, element types, their sizes, and the type of the data
-- of a section.
pub mod Types
pub mod Size
pub mod SectionType
pub mod Align
