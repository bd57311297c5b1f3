-- ===== src/Section.antt =====
-- libelf/elf_data.c, libelf/elf_scn.c, libelf/elf_strptr.c: the sections of an object, and their data.
pub mod Data
pub mod Table
mod Strptr
mod Tests
