-- ===== src/Format/Size.antt =====
-- libelf/libelf_fsize.m4, libelf/libelf_msize.m4, libelf/elf_types.m4, libelf/gelf_fsize.c: the sizes
-- of the elements in a file and in memory. What `sizeof` gives is that of the LP64 ABI.
use elftoolchain_libelf.Base.{
  ℕ, ◌+◌, ◌*◌, ◌%◌, ◌^◌, ◌==◌, if◌then◌else◌, List, [], ◌∷◌, Option, none, some,
}
use elftoolchain_libelf.Base.Outcome.{ErrorCode, version, unimpl, argument}
use elftoolchain_libelf.Format.Types.{
  ElfClass, class_32, class_64, ElfType, ev_current, t_addr, t_byte, t_cap, t_dyn, t_ehdr, t_half,
  t_lword, t_move, t_movep, t_note, t_off, t_phdr, t_rel, t_rela, t_shdr, t_sword, t_sxword,
  t_syminfo, t_sym, t_vdef, t_vneed, t_word, t_xword, t_gnuhash,
}

-- The basic types of the members of a structure.
pub data Member : Type 0 where
  ident half word lword addr off sword xword sxword byte : Member

-- `_BSZ32` and `_BSZ64`: the size of a member in a file.
unfoldable pub member_size : ElfClass → Member → ℕ
member_size ec ident = 16
member_size ec half = 2
member_size ec word = 4
member_size ec lword = 8
member_size class_64 addr = 8
member_size ec addr = 4
member_size class_64 off = 8
member_size ec off = 4
member_size ec sword = 4
member_size class_64 xword = 8
member_size ec xword = 0
member_size class_64 sxword = 8
member_size ec sxword = 0
member_size ec byte = 1

-- The structure of an element, in the order of the file; `none` for a type that is no structure.
unfoldable pub struct_def : ElfClass → ElfType → Option (List Member)
struct_def class_64 t_cap = some (xword ∷ xword ∷ [])
struct_def ec t_cap = some (word ∷ word ∷ [])
struct_def class_64 t_dyn = some (sxword ∷ xword ∷ [])
struct_def ec t_dyn = some (sword ∷ word ∷ [])
struct_def class_64 t_ehdr = some (
    ident ∷ half ∷ half ∷ word ∷ addr ∷ off ∷ off ∷ word ∷ half ∷ half ∷ half ∷ half ∷ half ∷ half
    ∷ [])
struct_def ec t_ehdr = some (
    ident ∷ half ∷ half ∷ word ∷ addr ∷ off ∷ off ∷ word ∷ half ∷ half ∷ half ∷ half ∷ half ∷ half
    ∷ [])
struct_def class_64 t_move = some (lword ∷ xword ∷ xword ∷ half ∷ half ∷ [])
struct_def ec t_move = some (lword ∷ word ∷ word ∷ half ∷ half ∷ [])
struct_def class_64 t_phdr = some (word ∷ word ∷ off ∷ addr ∷ addr ∷ xword ∷ xword ∷ xword ∷ [])
struct_def ec t_phdr = some (word ∷ off ∷ addr ∷ addr ∷ word ∷ word ∷ word ∷ word ∷ [])
struct_def class_64 t_rel = some (addr ∷ xword ∷ [])
struct_def ec t_rel = some (addr ∷ word ∷ [])
struct_def class_64 t_rela = some (addr ∷ xword ∷ sxword ∷ [])
struct_def ec t_rela = some (addr ∷ word ∷ sword ∷ [])
struct_def class_64 t_shdr =
    some (word ∷ word ∷ xword ∷ addr ∷ off ∷ xword ∷ word ∷ word ∷ xword ∷ xword ∷ [])
struct_def ec t_shdr =
    some (word ∷ word ∷ word ∷ addr ∷ off ∷ word ∷ word ∷ word ∷ word ∷ word ∷ [])
struct_def class_64 t_sym = some (word ∷ byte ∷ byte ∷ half ∷ addr ∷ xword ∷ [])
struct_def ec t_sym = some (word ∷ addr ∷ word ∷ byte ∷ byte ∷ half ∷ [])
struct_def class_64 t_syminfo = some (half ∷ half ∷ [])
struct_def ec t_syminfo = some (half ∷ half ∷ [])
struct_def ec t = none

unfoldable pub sum_sizes : ElfClass → List Member → ℕ
unfolding member_size
sum_sizes ec [] = 0
sum_sizes ec (f ∷ fs) = member_size ec f + sum_sizes ec fs

-- The size of an element that is no structure: a byte for the types of variable length, 0 for one
-- that is not implemented.
basic_size : ElfClass → ElfType → ℕ
unfolding member_size
basic_size ec t_addr = member_size ec addr
basic_size ec t_byte = 1
basic_size ec t_gnuhash = 1
basic_size ec t_half = 2
basic_size ec t_lword = 8
basic_size ec t_movep = 0
basic_size ec t_note = 1
basic_size ec t_off = member_size ec off
basic_size ec t_sword = 4
basic_size ec t_sxword = member_size ec sxword
basic_size ec t_vdef = 1
basic_size ec t_vneed = 1
basic_size ec t_word = 4
basic_size ec t_xword = member_size ec xword
basic_size ec t = 0

-- The table `fsize[]`.
unfoldable pub file_size : ElfClass → ElfType → ℕ
unfolding struct_def sum_sizes basic_size
file_size ec t = elim (struct_def ec t) [ none ↦ basic_size ec t | some fs ↦ sum_sizes ec fs ]

-- `_libelf_fsize`: the size, and the error that it sets. The type `none` is out of the enumeration.
unfoldable pub fsize : Option ElfType → ElfClass → (v c : ℕ) → ℕ × Option ErrorCode
fsize none ec v c = (0, if v == ev_current then some argument else some version)
fsize (some t) ec v c =
    if v == ev_current
    then (file_size ec t * c % 2 ^ 64, (if file_size ec t == 0 then some unimpl else none))
    else (0, some version)

-- The table `msize[]`: `sizeof` of the structure, with its padding.
unfoldable pub memory_size : ElfClass → ElfType → ℕ
unfolding file_size
memory_size class_64 t_move = 32
memory_size class_32 t_move = 24
memory_size ec t = file_size ec t

-- `_libelf_msize`: the size, or 0 with the error VERSION.
unfoldable pub msize : ElfType → ElfClass → (version : ℕ) → ℕ
unfolding memory_size
msize t ec v = if v == ev_current then memory_size ec t else 0
