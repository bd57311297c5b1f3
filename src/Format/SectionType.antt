-- ===== src/Format/SectionType.antt =====
-- libelf/libelf_data.c: the type of the data that a section of a given type holds.
-- common/elfdefinitions.h: the section types.
use elftoolchain_libelf.Base.{ℕ, Option, none, some, ◌==◌, leb, ◌&&◌, if◌then◌else◌}
use elftoolchain_libelf.Format.Types.{
  ElfType, t_addr, t_byte, t_dyn, t_gnuhash, t_half, t_move, t_note, t_rel, t_rela, t_sym,
  t_syminfo, t_vdef, t_vneed, t_word,
}

abbrev pub sht_null : ℕ
sht_null = 0

abbrev pub sht_progbits : ℕ
sht_progbits = 1

abbrev pub sht_symtab : ℕ
sht_symtab = 2

abbrev pub sht_strtab : ℕ
sht_strtab = 3

abbrev pub sht_rela : ℕ
sht_rela = 4

abbrev pub sht_hash : ℕ
sht_hash = 5

abbrev pub sht_dynamic : ℕ
sht_dynamic = 6

abbrev pub sht_note : ℕ
sht_note = 7

abbrev pub sht_nobits : ℕ
sht_nobits = 8

abbrev pub sht_rel : ℕ
sht_rel = 9

abbrev pub sht_dynsym : ℕ
sht_dynsym = 11

abbrev pub sht_init_array : ℕ
sht_init_array = 14

abbrev pub sht_fini_array : ℕ
sht_fini_array = 15

abbrev pub sht_preinit_array : ℕ
sht_preinit_array = 16

abbrev pub sht_group : ℕ
sht_group = 17

abbrev pub sht_symtab_shndx : ℕ
sht_symtab_shndx = 18

abbrev pub sht_loos : ℕ
sht_loos = 0x6000_0000

abbrev pub sht_hiuser : ℕ
sht_hiuser = 0xffff_ffff

abbrev pub sht_sunw_dof : ℕ
sht_sunw_dof = 0x6fff_fff4

abbrev pub sht_gnu_hash : ℕ
sht_gnu_hash = 0x6fff_fff6

abbrev pub sht_gnu_liblist : ℕ
sht_gnu_liblist = 0x6fff_fff7

abbrev pub sht_sunw_move : ℕ
sht_sunw_move = 0x6fff_fffa

abbrev pub sht_sunw_syminfo : ℕ
sht_sunw_syminfo = 0x6fff_fffc

abbrev pub sht_sunw_verdef : ℕ
sht_sunw_verdef = 0x6fff_fffd

abbrev pub sht_sunw_verneed : ℕ
sht_sunw_verneed = 0x6fff_fffe

abbrev pub sht_sunw_versym : ℕ
sht_sunw_versym = 0x6fff_ffff

-- The cases of the `switch` that name a generic section type, and its default for the others.
generic_shtype : ℕ → Option ElfType
generic_shtype sht =
    if sht == sht_progbits
    then some t_byte
    else if sht == sht_symtab
    then some t_sym
    else if sht == sht_strtab
    then some t_byte
    else if sht == sht_rela
    then some t_rela
    else if sht == sht_hash
    then some t_word
    else if sht == sht_dynamic
    then some t_dyn
    else if sht == sht_note
    then some t_note
    else if sht == sht_nobits
    then some t_byte
    else if sht == sht_rel
    then some t_rel
    else if sht == sht_dynsym
    then some t_sym
    else if sht == sht_init_array
    then some t_addr
    else if sht == sht_fini_array
    then some t_addr
    else if sht == sht_preinit_array
    then some t_addr
    else if sht == sht_group
    then some t_word
    else if sht == sht_symtab_shndx
    then some t_word
    else none

-- The cases that name a section type of an operating system, and the default from SHT_LOOS on.
os_shtype : ℕ → Option ElfType
os_shtype sht =
    if sht == sht_sunw_dof
    then some t_byte
    else if sht == sht_gnu_hash
    then some t_gnuhash
    else if sht == sht_gnu_liblist
    then some t_word
    else if sht == sht_sunw_move
    then some t_move
    else if sht == sht_sunw_syminfo
    then some t_syminfo
    else if sht == sht_sunw_verdef
    then some t_vdef
    else if sht == sht_sunw_verneed
    then some t_vneed
    else if sht == sht_sunw_versym
    then some t_half
    else if leb sht_loos sht && leb sht sht_hiuser
    then some t_byte
    else none

-- `_libelf_xlate_shtype`; `none` is the return value -1.
unfoldable pub xlate_shtype : ℕ → Option ElfType
unfolding generic_shtype os_shtype
xlate_shtype sht = if leb sht_loos sht then os_shtype sht else generic_shtype sht
