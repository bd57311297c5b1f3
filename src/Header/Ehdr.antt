-- ===== src/Header/Ehdr.antt =====
-- libelf/libelf_ehdr.c: `_libelf_ehdr`, which finds, allocates or loads the executable header.
pub mod Laws
pub mod Retry
use elftoolchain_libelf.Base.{
  ℕ, ◌%◌, Bool, true, false, not, ◌&&◌, Option, none, some, List, [], ltb, ◌==◌, if◌then◌else◌,
  bit_or, drop,
}
use elftoolchain_libelf.Base.Outcome.{
  Result, ok, err, fault, argument, class, version, resource, header, Malloc, granted, denied,
}
use elftoolchain_libelf.Format.Types.{ElfClass, class_none, class_32, class_64, t_ehdr, ev_current}
use elftoolchain_libelf.Format.Size.{fsize, msize}
use elftoolchain_libelf.State.{
  is_elf, has_class, is_write, Elf, Ehdr, Phdr, Shdr, ElfKind, k_elf, ElfCmd, c_write, c_set,
}
use elftoolchain_libelf.Flag.{f_dirty, elf_flagehdr}
use elftoolchain_libelf.Numbering.{raw_size, load_numbers}

-- The translation routines that are generated at build time, the byte order of the host and the
-- version that the library works with. `swap` tells a routine to swap the bytes of each member.
pub record Library : Type 0 where
  pub byteorder : ℕ
  pub version : ℕ
  pub to_ehdr : ElfClass → (swap : Bool) → (src : List ℕ) → Ehdr
  pub to_phdr : ElfClass → (swap : Bool) → (src : List ℕ) → Phdr
  pub to_shdr : ElfClass → (swap : Bool) → (src : List ℕ) → Shdr

-- The number of a class in `e_ident`.
abbrev pub class_code : ElfClass → ℕ
class_code class_none = 0
class_code class_32 = 1
class_code class_64 = 2

abbrev pub raw_bytes : Elf → List ℕ
raw_bytes e = elim e.e_rawfile [ none ↦ [] | some file ↦ file ]

-- EHDR_INIT, on the zeros of `calloc`
abbrev pub init_ehdr : ElfClass → (v : ℕ) → Ehdr
init_ehdr ec v = record {
  ei_class = class_code ec;
  ei_data = 0;
  ei_version = v % 256;
  e_type = 0;
  e_machine = 0;
  e_version = v;
  e_entry = 0;
  e_phoff = 0;
  e_shoff = 0;
  e_flags = 0;
  e_ehsize = 0;
  e_phentsize = 0;
  e_phnum = 0;
  e_shentsize = 0;
  e_shnum = 0;
  e_shstrndx = 0;
}

-- e->e_byteorder != LIBELF_PRIVATE(byteorder)
abbrev pub swaps : Library → Elf → Bool
swaps lib e = not (e.e_byteorder == lib.byteorder)

-- elf_flagehdr(e, ELF_C_SET, ELF_F_DIRTY), whose result is not used
unfoldable pub flag_ehdr : Elf → Elf
unfolding elf_flagehdr
flag_ehdr e = elim (elf_flagehdr (some e) c_set f_dirty).1 [ none ↦ e | some e' ↦ e' ]

-- The value returned once the numbers are loaded.
loaded_ehdr : Ehdr → Result (Unit {0}) × Elf → Result Ehdr × Elf
loaded_ehdr eh (ok u, e) = (ok eh, e)
loaded_ehdr eh (err c, e) = (err c, e)
loaded_ehdr eh (fault, e) = (fault, e)

-- From the translation of the header on, which replaces what EHDR_INIT has assigned.
translate_ehdr : Library → Elf → ElfClass → Malloc → Result Ehdr × Elf
unfolding load_numbers loaded_ehdr
translate_ehdr lib e ec scn0 =
    let eh = lib.to_ehdr ec (swaps lib e) (raw_bytes e) in
    let sh0 = λ (src : List ℕ). lib.to_shdr ec (swaps lib e) src in
    loaded_ehdr eh (
      load_numbers (record e { e_ehdr = some eh }) ec eh (sh0 (drop eh.e_shoff (raw_bytes e))) scn0)

-- From the allocation of the header on.
new_ehdr : Library → Elf → ElfClass → (allocate : Bool) → (mem scn0 : Malloc) → Result Ehdr × Elf
unfolding translate_ehdr
new_ehdr lib e ec allocate (denied errno) scn0 = (err (resource 0), e)
new_ehdr lib e ec allocate granted scn0 =
    let eh = init_ehdr ec lib.version in
    let e' = record e {
      e_ehdr = some eh;
      e_flags = if allocate then bit_or e.e_flags f_dirty else e.e_flags;
    } in
    if is_write e.e_cmd then (ok eh, e') else translate_ehdr lib e' ec scn0

-- From the search for a header on. The sizes are asserted.
find_ehdr :
    Library
    → Elf
    → ElfClass
    → (allocate : Bool) → (mem scn0 : Malloc) → Option Ehdr
    → Result Ehdr × Elf
unfolding new_ehdr fsize msize
find_ehdr lib e ec allocate mem scn0 (some eh) = (ok eh, e)
find_ehdr lib e ec allocate mem scn0 none =
    let fsz = (fsize (some t_ehdr) ec e.e_version 1).0 in
    if fsz == 0
    then (fault, e)
    else if not (is_write e.e_cmd) && ltb (raw_size e) fsz
    then (err header, e)
    else if msize t_ehdr ec ev_current == 0
    then (fault, e)
    else new_ehdr lib e ec allocate mem scn0

-- `_libelf_ehdr` on a descriptor that is not NULL: the header, and the descriptor after it. `mem` and
-- `scn0` are the answers for the header and for section 0.
unfoldable pub ehdr :
    Library → Elf → ElfClass → (allocate : Bool) → (mem scn0 : Malloc) → Result Ehdr × Elf
unfolding find_ehdr
ehdr lib e ec allocate mem scn0 =
    if not (has_class ec)
    then (fault, e)
    else if not (is_elf e.e_kind)
    then (err argument, e)
    else if has_class e.e_class && not (class_code e.e_class == class_code ec)
    then (err class, e)
    else if not (e.e_version == ev_current)
    then (err version, e)
    else find_ehdr lib (record e { e_class = ec }) ec allocate mem scn0 e.e_ehdr
