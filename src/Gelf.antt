-- ===== src/Gelf.antt =====
-- libelf/gelf_*.c: class independent access to the entries of a section's data.
pub mod Entry
pub mod Member
pub mod Sym
pub mod Rel
pub mod Rela
pub mod Dyn
pub mod Cap
pub mod Move
pub mod Syminfo
pub mod Symshndx
mod Tests
