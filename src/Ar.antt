-- ===== src/Ar.antt =====
-- libelf/libelf_ar.c, libelf/libelf_ar_util.c, libelf/elf_rand.c, libelf/elf_next.c: archives.
pub mod Number
pub mod Archive
pub mod Name
pub mod Header
pub mod Symtab
pub mod BsdSymtab
mod Tests
