-- ===== src/Header.antt =====
-- libelf/libelf_ehdr.c, libelf_phdr.c, elf_phnum.c, elf_shnum.c, elf_shstrndx.c, gelf_ehdr.c, gelf_phdr.c,
-- gelf_shdr.c: the headers of an object, loaded when they are asked for, and their numbers.
pub mod Ehdr
pub mod Phdr
mod Number
pub mod Class
pub mod Gelf
mod Tests
