-- ===== src/Section/Strptr.antt =====
-- libelf/elf_strptr.c: the string at an offset of a string table.
pub mod Agree
pub mod Inside
use elftoolchain_libelf.Base.{
  ℕ, ◌+◌, ◌-◌, Bool, true, false, not, ◌&&◌, ◌||◌, Option, none, some, List, [], ◌∷◌, leb, ltb,
  ◌==◌, if◌then◌else◌, get_elem?, set, bit_and,
}
use elftoolchain_libelf.Base.Outcome.{Result, ok, err, fault, argument, data_error}
use elftoolchain_libelf.Format.Types.{ElfType, t_byte}
use elftoolchain_libelf.Format.SectionType.{sht_strtab}
use elftoolchain_libelf.State.{is_elf, Elf, Scn, Data, Shdr}
use elftoolchain_libelf.Header.Ehdr.{Library}
use elftoolchain_libelf.Header.Gelf.{gelf_getshdr}
use elftoolchain_libelf.Section.Data.{Host, DataPtr, elf_getdata}
use elftoolchain_libelf.Section.Table.{Answers, elf_getscn}
use elftoolchain_libelf.Update.Extent.{add64}
use elftoolchain_libelf.Update.Section.{by_application, roundup64}

abbrev pub is_byte : Option ElfType → Bool
is_byte (some t_byte) = true
is_byte t = false

-- d->d_buf == NULL || d->d_size == 0
abbrev pub is_empty : Data → Bool
is_empty d = (d.d_buf == 0) || (d.d_size == 0)

-- The loop where the application does the layout: the address of the string.
unfoldable pub by_offset : (offset : ℕ) → List Data → Result ℕ
by_offset offset [] = err argument
by_offset offset (d ∷ ds) =
    let rest = by_offset offset ds in
    if is_empty d
    then rest
    else if not (is_byte d.d_type)
    then err data_error
    else if leb d.d_off offset && ltb offset (add64 d.d_off d.d_size)
    then ok (d.d_buf + offset - d.d_off)
    else rest

-- `count` behind the hole that the alignment of a data descriptor asks for.
abbrev pub aligned_count : (count align : ℕ) → ℕ
aligned_count count align = if ltb 1 align then roundup64 count align else count

-- The loop where the library does the layout; `count` bytes have been seen.
unfoldable pub by_count : (offset count : ℕ) → List Data → Result ℕ
unfolding roundup64
by_count offset count [] = err argument
by_count offset count (d ∷ ds) =
    let at = aligned_count count d.d_align in
    let rest = by_count offset (if is_empty d then count else add64 at d.d_size) ds in
    if not (leb count offset)
    then err argument
    else if is_empty d
    then rest
    else if not (is_byte d.d_type)
    then err data_error
    else if ltb 1 d.d_align && not (bit_and d.d_align (d.d_align - 1) == 0)
    then err data_error
    else if ltb offset at
    then err argument
    else if ltb offset (add64 at d.d_size)
    then ok (d.d_buf + offset - at)
    else rest

-- The loops begin with `elf_getdata`, which reads the data in; a failure of it ends them.
search_data : Elf → (place offset : ℕ) → Result DataPtr × Scn → Result ℕ × Elf
unfolding by_offset by_count
search_data e place offset (ok p, s) = (
  (if by_application e then by_offset offset s.s_data else by_count offset 0 s.s_data),
  record e { e_scn = set e.e_scn place s },
)
search_data e place offset (err c, s) = (err argument, record e { e_scn = set e.e_scn place s })
search_data e place offset (fault, s) = (fault, record e { e_scn = set e.e_scn place s })

in_section : Elf → (place : ℕ) → Scn → (offset : ℕ) → Host → Result Shdr → Result ℕ × Elf
unfolding search_data elf_getdata
in_section e place s offset host (ok sh) =
    if not (sh.sh_type == sht_strtab) || leb sh.sh_size offset
    then (err argument, e)
    else search_data e place offset (elf_getdata e s none host)
in_section e place s offset host (err c) = (err c, e)
in_section e place s offset host fault = (fault, e)

at_section : (offset : ℕ) → Host → Result ℕ × Elf → Result ℕ × Elf
unfolding in_section gelf_getshdr
at_section offset host (ok place, e) = elim (get_elem? e.e_scn place) [
  | none ↦ (fault, e)
  | some s ↦ in_section e place s offset host (gelf_getshdr e s true)
]
at_section offset host (err c, e) = (err c, e)
at_section offset host (fault, e) = (fault, e)

-- `elf_strptr` on a descriptor that is not NULL
unfoldable pub elf_strptr : Library → Elf → (scndx offset : ℕ) → Answers → Host → Result ℕ × Elf
unfolding at_section elf_getscn
elf_strptr lib e scndx offset a host =
    if not (is_elf e.e_kind)
    then (err argument, e)
    else at_section offset host (elf_getscn lib e scndx a)
