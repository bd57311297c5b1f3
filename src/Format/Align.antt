-- ===== src/Format/Align.antt =====
-- libelf/libelf_align.c: the alignment of the elements in a file.
use elftoolchain_libelf.Base.{ℕ, Option, none, some}
use elftoolchain_libelf.Format.Types.{
  ElfClass, class_32, ElfType, t_addr, t_byte, t_cap, t_dyn, t_ehdr, t_half, t_lword, t_move,
  t_movep, t_note, t_off, t_phdr, t_rel, t_rela, t_shdr, t_sword, t_sxword, t_syminfo, t_sym,
  t_vdef, t_vneed, t_word, t_xword, t_gnuhash,
}

-- `a32` or `a64` of an entry of the table.
abbrev by_class : ElfClass → (a32 a64 : ℕ) → ℕ
by_class class_32 a32 a64 = a32
by_class ec a32 a64 = a64

-- The table `falign[]`.
unfoldable pub file_align : ElfClass → ElfType → ℕ
file_align ec t_addr = by_class ec 4 8
file_align ec t_byte = by_class ec 1 1
file_align ec t_cap = by_class ec 4 8
file_align ec t_dyn = by_class ec 4 8
file_align ec t_ehdr = by_class ec 4 8
file_align ec t_half = by_class ec 2 2
file_align ec t_lword = by_class ec 8 8
file_align ec t_move = by_class ec 8 8
file_align ec t_movep = by_class ec 0 0
file_align ec t_note = by_class ec 4 4
file_align ec t_off = by_class ec 4 8
file_align ec t_phdr = by_class ec 4 8
file_align ec t_rel = by_class ec 4 8
file_align ec t_rela = by_class ec 4 8
file_align ec t_shdr = by_class ec 4 8
file_align ec t_sword = by_class ec 4 4
file_align ec t_sxword = by_class ec 0 8
file_align ec t_sym = by_class ec 4 8
file_align ec t_syminfo = by_class ec 2 2
file_align ec t_vdef = by_class ec 4 4
file_align ec t_vneed = by_class ec 4 4
file_align ec t_word = by_class ec 4 4
file_align ec t_xword = by_class ec 0 8
file_align ec t_gnuhash = by_class ec 4 8

-- `_libelf_falign`; the type `none` is out of the enumeration.
unfoldable pub falign : Option ElfType → ElfClass → ℕ
unfolding file_align
falign none ec = 0
falign (some t) ec = file_align ec t
