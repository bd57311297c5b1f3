-- ===== src/State.antt =====
-- libelf/_libelf.h, libelf/libelf.h, common/elfdefinitions.h: the descriptors and the headers. The
-- headers of the two classes have the same members, of different widths, and share a record here.
-- A pointer that may be NULL is an Option, and a STAILQ is a list.
use elftoolchain_libelf.Base.{ℕ, Bool, true, false, Option, List}
use elftoolchain_libelf.Format.Types.{ElfClass, class_none, ElfType}

-- enum Elf_Kind
pub data ElfKind : Type 0 where
  k_none k_ar k_coff k_elf : ElfKind

-- enum Elf_Cmd
pub data ElfCmd : Type 0 where
  c_null c_clr c_fddone c_fdread c_rdwr c_read c_set c_write : ElfCmd

-- Tests of the source, by name.
abbrev pub is_elf : ElfKind → Bool
is_elf k_elf = true
is_elf k = false

abbrev pub has_class : ElfClass → Bool
has_class class_none = false
has_class ec = true

abbrev pub is_write : ElfCmd → Bool
is_write c_write = true
is_write c = false

abbrev pub is_read : ElfCmd → Bool
is_read c_read = true
is_read c = false

-- Elf32_Ehdr and Elf64_Ehdr; of `e_ident` the class, the byte order and the version.
pub record Ehdr : Type 0 where
  pub ei_class : ℕ
  pub ei_data : ℕ
  pub ei_version : ℕ
  pub e_type : ℕ
  pub e_machine : ℕ
  pub e_version : ℕ
  pub e_entry : ℕ
  pub e_phoff : ℕ
  pub e_shoff : ℕ
  pub e_flags : ℕ
  pub e_ehsize : ℕ
  pub e_phentsize : ℕ
  pub e_phnum : ℕ
  pub e_shentsize : ℕ
  pub e_shnum : ℕ
  pub e_shstrndx : ℕ

-- Elf32_Phdr and Elf64_Phdr
pub record Phdr : Type 0 where
  pub p_type : ℕ
  pub p_flags : ℕ
  pub p_offset : ℕ
  pub p_vaddr : ℕ
  pub p_paddr : ℕ
  pub p_filesz : ℕ
  pub p_memsz : ℕ
  pub p_align : ℕ

-- Elf32_Shdr and Elf64_Shdr
pub record Shdr : Type 0 where
  pub sh_name : ℕ
  pub sh_type : ℕ
  pub sh_flags : ℕ
  pub sh_addr : ℕ
  pub sh_offset : ℕ
  pub sh_size : ℕ
  pub sh_link : ℕ
  pub sh_info : ℕ
  pub sh_addralign : ℕ
  pub sh_entsize : ℕ

-- Elf_Data, with `d_flags` of struct _Libelf_Data. The type `none` is no enumerator; `d_buf` is an
-- address, 0 for NULL.
pub record Data : Type 0 where
  pub d_buf : ℕ
  pub d_type : Option ElfType
  pub d_size : ℕ
  pub d_off : ℕ
  pub d_align : ℕ
  pub d_version : ℕ
  pub d_flags : ℕ

-- struct _Elf_Scn
pub record Scn : Type 0 where
  pub s_shdr : Shdr
  pub s_data : List Data
  pub s_rawdata : List Data
  pub s_flags : ℕ
  pub s_ndx : ℕ
  pub s_offset : ℕ
  pub s_rawoff : ℕ
  pub s_size : ℕ

-- struct _Elf, for a descriptor that is no archive.
pub record Elf : Type 0 where
  pub e_byteorder : ℕ
  pub e_class : ElfClass
  pub e_cmd : ElfCmd
  pub e_flags : ℕ
  pub e_kind : ElfKind
  pub e_rawfile : Option (List ℕ)
  pub e_version : ℕ
  pub e_ehdr : Option Ehdr
  pub e_phdr : Option (List Phdr)
  pub e_scn : List Scn
  pub e_nphdr : ℕ
  pub e_nscn : ℕ
  pub e_strndx : ℕ
