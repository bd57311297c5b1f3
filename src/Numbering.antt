-- ===== src/Numbering.antt =====
-- libelf/libelf_extended.c, libelf/libelf_ehdr.c: the numbers of sections and program headers, and the
-- index of the section name table, which go to section 0 when they do not fit the header.
pub mod RoundTrip
pub mod Keeps
mod Tests
use elftoolchain_libelf.Base.{
  ℕ, ◌+◌, ◌%◌, ◌^◌, Bool, true, false, not, ◌&&◌, ◌||◌, Option, none, some, List, [], ◌∷◌, ◌++◌,
  length, leb, ltb, ◌==◌, if◌then◌else◌,
}
use elftoolchain_libelf.Base.Outcome.{
  Result, ok, err, fault, header, section, resource, Malloc, granted, denied,
}
use elftoolchain_libelf.Format.Types.{ElfClass, class_32, class_64, class_none, t_shdr}
use elftoolchain_libelf.Format.Size.{fsize}
use elftoolchain_libelf.State.{Elf, Scn, Shdr, Ehdr, c_set}
use elftoolchain_libelf.Flag.{elf_flagshdr, f_dirty}

abbrev pub shn_loreserve : ℕ
shn_loreserve = 0xff00

abbrev pub shn_xindex : ℕ
shn_xindex = 0xffff

abbrev pub pn_xnum : ℕ
pn_xnum = 0xffff

-- What `calloc` leaves.
abbrev pub zero_shdr : Shdr
zero_shdr = record {
  sh_name = 0;
  sh_type = 0;
  sh_flags = 0;
  sh_addr = 0;
  sh_offset = 0;
  sh_size = 0;
  sh_link = 0;
  sh_info = 0;
  sh_addralign = 0;
  sh_entsize = 0;
}

abbrev pub new_scn : ℕ → Scn
new_scn ndx = record {
  s_shdr = zero_shdr;
  s_data = [];
  s_rawdata = [];
  s_flags = 0;
  s_ndx = ndx;
  s_offset = 0;
  s_rawoff = 0;
  s_size = 0;
}

-- `_libelf_allocate_scn`; the new section is the last one of the list.
unfoldable pub allocate_scn : Elf → (ndx : ℕ) → Malloc → Result Scn × Elf
allocate_scn e ndx (denied errno) = (err (resource errno), e)
allocate_scn e ndx granted = (ok (new_scn ndx), record e { e_scn = e.e_scn ++ (new_scn ndx ∷ []) })

-- elf_flagshdr(scn, ELF_C_SET, ELF_F_DIRTY)
dirty_scn : Scn → Scn
unfolding elf_flagshdr
dirty_scn s = elim (elf_flagshdr (some s) c_set f_dirty).1 [ none ↦ s | some s' ↦ s' ]

-- The assignments to the section that `_libelf_getscn0` has found or allocated; it is the first one.
set_scn0 : Elf → (Shdr → Shdr) → List Scn → Result (Unit {0}) × Elf
unfolding dirty_scn
set_scn0 e assign [] = (fault, e)
set_scn0 e assign (s ∷ rest) =
    if s.s_ndx == 0
    then (ok tt, record e { e_scn = dirty_scn (record s { s_shdr = assign s.s_shdr }) ∷ rest })
    else (fault, e)

set_new : (Shdr → Shdr) → Result Scn × Elf → Result (Unit {0}) × Elf
unfolding set_scn0
set_new assign (ok s, e) = set_scn0 e assign e.e_scn
set_new assign (err c, e) = (err c, e)
set_new assign (fault, e) = (fault, e)

-- `_libelf_getscn0`, and what the three functions do with the section.
extend : Elf → (Shdr → Shdr) → Malloc → List Scn → Result (Unit {0}) × Elf
unfolding set_scn0 set_new allocate_scn
extend e assign mem (s ∷ rest) = set_scn0 e assign (s ∷ rest)
extend e assign mem [] = set_new assign (allocate_scn e 0 mem)

-- `sh_size` has 32 bits in an Elf32_Shdr, and 64 in an Elf64_Shdr.
unfoldable pub size_of_class : ElfClass → ℕ → ℕ
size_of_class class_32 n = n % 2 ^ 32
size_of_class ec n = n % 2 ^ 64

-- The assignment to the header, after a success.
with_header : Ehdr → (Ehdr → Ehdr) → Result (Unit {0}) × Elf → Result (Unit {0}) × Elf × Ehdr
with_header eh assign (ok u, e) = (ok u, e, assign eh)
with_header eh assign (err c, e) = (err c, e, eh)
with_header eh assign (fault, e) = (fault, e, eh)

-- `_libelf_setshnum`: the value returned, the descriptor and the header.
unfoldable pub setshnum :
    Elf → Ehdr → ElfClass → (shnum : ℕ) → Malloc → Result (Unit {0}) × Elf × Ehdr
unfolding extend with_header size_of_class
setshnum e eh ec shnum mem =
    if leb shn_loreserve shnum
    then with_header eh (λ h. record h { e_shnum = 0 })
        (extend e (λ sh. record sh { sh_size = size_of_class ec shnum }) mem e.e_scn)
    else (ok tt, e, record eh { e_shnum = shnum % 2 ^ 16 })

-- `_libelf_setshstrndx`
unfoldable pub setshstrndx :
    Elf → Ehdr → ElfClass → (shstrndx : ℕ) → Malloc → Result (Unit {0}) × Elf × Ehdr
unfolding extend with_header
setshstrndx e eh ec shstrndx mem =
    if leb shn_loreserve shstrndx
    then with_header eh (λ h. record h { e_shstrndx = shn_xindex })
        (extend e (λ sh. record sh { sh_link = shstrndx % 2 ^ 32 }) mem e.e_scn)
    else (ok tt, e, record eh { e_shstrndx = shstrndx % 2 ^ 16 })

-- `_libelf_setphnum`
unfoldable pub setphnum :
    Elf → Ehdr → ElfClass → (phnum : ℕ) → Malloc → Result (Unit {0}) × Elf × Ehdr
unfolding extend with_header
setphnum e eh ec phnum mem =
    if leb pn_xnum phnum
    then with_header eh (λ h. record h { e_phnum = pn_xnum })
        (extend e (λ sh. record sh { sh_info = phnum % 2 ^ 32 }) mem e.e_scn)
    else (ok tt, e, record eh { e_phnum = phnum % 2 ^ 16 })

-- The numbers in a descriptor.
abbrev pub set_numbers : Elf → (nscn nphdr strndx : ℕ) → Elf
set_numbers e nscn nphdr strndx = record e { e_nscn = nscn; e_nphdr = nphdr; e_strndx = strndx }

-- The end of `_libelf_load_extended`, for the header `sh0` that was read for section 0.
take_extended : Elf → Shdr → (phnum strndx : ℕ) → Result (Unit {0}) × Elf
take_extended e sh0 phnum strndx = if not (sh0.sh_type == 0) then (err section, e) else (
  ok tt,
  set_numbers e sh0.sh_size (if phnum == pn_xnum then sh0.sh_info else phnum)
      (if strndx == shn_xindex then sh0.sh_link else strndx),
)

abbrev pub raw_size : Elf → ℕ
raw_size e = elim e.e_rawfile [ none ↦ 0 | some file ↦ length file ]

-- The section header is read at its place in the file; a read `past` the end of the file is a fault.
read_scn0 : (past : Bool) → Shdr → (phnum strndx : ℕ) → Result Scn × Elf → Result (Unit {0}) × Elf
unfolding take_extended
read_scn0 past sh0 phnum strndx (ok s, e) =
    if past
    then (fault, e)
    else take_extended (record e { e_scn = record s { s_shdr = sh0 } ∷ [] }) sh0 phnum strndx
read_scn0 past sh0 phnum strndx (err c, e) = (err c, e)
read_scn0 past sh0 phnum strndx (fault, e) = (fault, e)

-- `_libelf_load_extended`, where `sh0` is what the translation routine makes of the bytes at `shoff`.
-- The check is on a sum that may wrap.
unfoldable pub load_extended :
    Elf → ElfClass → (shoff phnum strndx : ℕ) → (sh0 : Shdr) → Malloc → Result (Unit {0}) × Elf
unfolding fsize allocate_scn read_scn0
load_extended e ec shoff phnum strndx sh0 mem =
    let fsz = (fsize (some t_shdr) ec e.e_version 1).0 in
    if not (length e.e_scn == 0) || (fsz == 0)
    then (fault, e)
    else if ltb (raw_size e) ((shoff + fsz) % 2 ^ 64)
    then (err header, e)
    else read_scn0 (ltb (raw_size e) (shoff + fsz)) sh0 phnum strndx (allocate_scn e 0 mem)

-- The end of `_libelf_ehdr`, for the header `eh` that was read from the file.
unfoldable pub load_numbers :
    Elf → ElfClass → (eh : Ehdr) → (sh0 : Shdr) → Malloc → Result (Unit {0}) × Elf
unfolding load_extended
load_numbers e ec eh sh0 mem =
    let extended = (eh.e_shnum == 0) && not (eh.e_shoff == 0) in
    let xnum = (eh.e_phnum == pn_xnum) || (eh.e_shstrndx == shn_xindex) in
    if leb shn_loreserve eh.e_shnum || ((eh.e_shoff == 0) && (not (eh.e_shnum == 0) || xnum))
    then (err header, e)
    else if extended || xnum
    then load_extended e ec eh.e_shoff eh.e_phnum eh.e_shstrndx sh0 mem
    else (ok tt, set_numbers e eh.e_shnum eh.e_phnum eh.e_shstrndx)
