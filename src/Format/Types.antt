-- ===== src/Format/Types.antt =====
-- libelf/libelf.h: enum Elf_Type. common/elfdefinitions.h: the ELFCLASS values, EV_CURRENT.
use elftoolchain_libelf.Base.{ℕ, Bool, Option, none, some, false, ◌==◌}

-- ELFCLASSNONE, ELFCLASS32 and ELFCLASS64
pub data ElfClass : Type 0 where
  class_none class_32 class_64 : ElfClass

pub data ElfType : Type 0 where
  t_addr t_byte t_cap t_dyn t_ehdr t_half t_lword t_move t_movep t_note t_off t_phdr : ElfType
  t_rel t_rela t_shdr t_sword t_sxword t_syminfo t_sym t_vdef t_vneed t_word t_xword : ElfType
  t_gnuhash : ElfType

-- The number of the enumerator.
abbrev pub type_code : ElfType → ℕ
type_code t_addr = 0
type_code t_byte = 1
type_code t_cap = 2
type_code t_dyn = 3
type_code t_ehdr = 4
type_code t_half = 5
type_code t_lword = 6
type_code t_move = 7
type_code t_movep = 8
type_code t_note = 9
type_code t_off = 10
type_code t_phdr = 11
type_code t_rel = 12
type_code t_rela = 13
type_code t_shdr = 14
type_code t_sword = 15
type_code t_sxword = 16
type_code t_syminfo = 17
type_code t_sym = 18
type_code t_vdef = 19
type_code t_vneed = 20
type_code t_word = 21
type_code t_xword = 22
type_code t_gnuhash = 23

-- `x == t`, where `none` is a number that is no enumerator
abbrev pub is_type : Option ElfType → ElfType → Bool
is_type none t = false
is_type (some s) t = type_code s == type_code t

abbrev pub ev_current : ℕ
ev_current = 1
