-- ===== src/Update.antt =====
-- libelf/elf_update.c: laying out and writing an ELF object.
pub mod Extent
pub mod Image
pub mod Section
pub mod Sections
pub mod Sync
pub mod Resync
mod Tests
