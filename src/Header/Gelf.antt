-- ===== src/Header/Gelf.antt =====
-- libelf/gelf_ehdr.c, gelf_phdr.c, gelf_shdr.c, libelf_shdr.c: the class independent headers.
pub mod Laws
pub mod RoundTrip
pub mod Past
use elftoolchain_libelf.Base.{
  ℕ, Bool, true, false, not, ◌||◌, Option, none, some, List, leb, ltb, if◌then◌else◌, get_elem?,
  set,
}
use elftoolchain_libelf.Base.Int.{ℤ, pos, negsuc}
use elftoolchain_libelf.Base.Outcome.{Result, ok, err, fault, argument, mode, Malloc}
use elftoolchain_libelf.Format.Types.{ElfClass, class_none}
use elftoolchain_libelf.State.{
  is_read, is_elf, has_class, Elf, Ehdr, Phdr, Shdr, Scn, ElfCmd, c_read,
}
use elftoolchain_libelf.Gelf.Entry.{Stored, stored_result, store_class}
use elftoolchain_libelf.Gelf.Member.{copy_u32}
use elftoolchain_libelf.Section.Data.{flag_scn}
use elftoolchain_libelf.Header.Ehdr.{Library, ehdr, flag_ehdr}
use elftoolchain_libelf.Header.Class.{getshdr}
use elftoolchain_libelf.Header.Phdr.{getphdr, newphdr, flag_phdr}
use elftoolchain_libelf.Header.Number.{elf_getphdrnum}

-- `gelf_getehdr`: the headers of both classes have the same members. The caller's structure is not NULL
-- if `dst`.
unfoldable pub gelf_getehdr : Library → Elf → (dst : Bool) → (mem scn0 : Malloc) → Result Ehdr × Elf
unfolding ehdr
gelf_getehdr lib e dst mem scn0 =
    if not dst || not (has_class e.e_class)
    then (err argument, e)
    else ehdr lib e e.e_class false mem scn0

unfoldable pub gelf_newehdr : Library → Elf → ElfClass → (mem scn0 : Malloc) → Result Ehdr × Elf
unfolding ehdr
gelf_newehdr lib e ec mem scn0 =
    if has_class ec then ehdr lib e ec true mem scn0 else (err argument, e)

-- The assignments to an Elf32_Ehdr.
unfoldable pub store_ehdr : Ehdr → Ehdr → Stored Ehdr
unfolding copy_u32
store_ehdr new old =
    let start = record old {
      ei_class = new.ei_class;
      ei_data = new.ei_data;
      ei_version = new.ei_version;
      e_type = new.e_type;
      e_machine = new.e_machine;
      e_version = new.e_version;
    } in
    copy_u32 new.e_entry start λ entry.
      let entered = record start { e_entry = entry } in
      copy_u32 new.e_phoff entered λ phoff.
        let placed = record entered { e_phoff = phoff } in
        copy_u32 new.e_shoff placed λ shoff. (
          record placed {
            e_shoff = shoff;
            e_flags = new.e_flags;
            e_ehsize = new.e_ehsize;
            e_phentsize = new.e_phentsize;
            e_phnum = new.e_phnum;
            e_shentsize = new.e_shentsize;
            e_shnum = new.e_shnum;
            e_shstrndx = new.e_shstrndx;
          },
          none,
        )

put_ehdr : ElfClass → Ehdr → Result Ehdr × Elf → Result (Unit {0}) × Elf
unfolding flag_ehdr store_ehdr
put_ehdr ec new (ok eh, e) =
    let (eh', stop) = store_class ec store_ehdr new eh in
    (stored_result stop, record (flag_ehdr e) { e_ehdr = some eh' })
put_ehdr ec new (err c, e) = (err c, e)
put_ehdr ec new (fault, e) = (fault, e)

unfoldable pub gelf_update_ehdr :
    Library → Elf → Option Ehdr → (mem scn0 : Malloc) → Result (Unit {0}) × Elf
unfolding put_ehdr ehdr
gelf_update_ehdr lib e none mem scn0 = (err argument, e)
gelf_update_ehdr lib e (some new) mem scn0 =
    if not (is_elf e.e_kind) || not (has_class e.e_class)
    then (err argument, e)
    else if is_read e.e_cmd
    then (err mode, e)
    else put_ehdr e.e_class new (ehdr lib e e.e_class false mem scn0)

-- The entry of the table; an access past its end is a fault.
phdr_at : ℕ → Result (List Phdr) × Elf → Result Phdr × Elf
phdr_at index (ok phdrs, e) = elim (get_elem? phdrs index) [
  | some ph ↦ (ok ph, e)
  | none ↦ (fault, e)
]
phdr_at index (err c, e) = (err c, e)
phdr_at index (fault, e) = (fault, e)

table_at :
    Library → (index : ℕ) → (mem scn0 phdr_mem : Malloc) → Result Ehdr × Elf → Result Phdr × Elf
unfolding phdr_at getphdr
table_at lib index mem scn0 phdr_mem (ok eh, e) =
    phdr_at index (getphdr lib e e.e_class mem scn0 phdr_mem)
table_at lib index mem scn0 phdr_mem (err c, e) = (err c, e)
table_at lib index mem scn0 phdr_mem (fault, e) = (fault, e)

-- From the number of headers on.
below_phnum :
    Library → (index : ℕ) → (mem scn0 phdr_mem : Malloc) → Result ℕ × Elf → Result Phdr × Elf
unfolding table_at ehdr
below_phnum lib index mem scn0 phdr_mem (ok phnum, e) =
    if leb phnum index
    then (err argument, e)
    else table_at lib index mem scn0 phdr_mem (ehdr lib e e.e_class false mem scn0)
below_phnum lib index mem scn0 phdr_mem (err c, e) = (err argument, e)
below_phnum lib index mem scn0 phdr_mem (fault, e) = (fault, e)

-- `gelf_getphdr`; each call of `_libelf_ehdr` gets the same answers, which only the first may ask for.
unfoldable pub gelf_getphdr :
    Library → Elf → (index : ℤ) → (dst : Bool) → (mem scn0 phdr_mem : Malloc) → Result Phdr × Elf
unfolding below_phnum elf_getphdrnum
gelf_getphdr lib e (negsuc n) dst mem scn0 phdr_mem = (err argument, e)
gelf_getphdr lib e (pos index) dst mem scn0 phdr_mem =
    if not dst || not (has_class e.e_class) || not (is_elf e.e_kind)
    then (err argument, e)
    else below_phnum lib index mem scn0 phdr_mem (elf_getphdrnum lib e mem scn0)

unfoldable pub gelf_newphdr :
    Library → Elf → (count : ℕ) → (mem scn0 phdr_mem : Malloc) → Result (Option (List Phdr)) × Elf
unfolding newphdr
gelf_newphdr lib e count mem scn0 phdr_mem = newphdr lib e e.e_class count mem scn0 phdr_mem

-- The assignments to an Elf32_Phdr.
unfoldable pub store_phdr : Phdr → Phdr → Stored Phdr
unfolding copy_u32
store_phdr new old =
    let start = record old { p_type = new.p_type; p_flags = new.p_flags } in
    copy_u32 new.p_offset start λ offset.
      let a = record start { p_offset = offset } in
      copy_u32 new.p_vaddr a λ vaddr.
        let b = record a { p_vaddr = vaddr } in
        copy_u32 new.p_paddr b λ paddr.
          let c = record b { p_paddr = paddr } in
          copy_u32 new.p_filesz c λ filesz.
            let d = record c { p_filesz = filesz } in
            copy_u32 new.p_memsz d λ memsz.
              let f = record d { p_memsz = memsz } in
              copy_u32 new.p_align f λ align. (record f { p_align = align }, none)

-- The assignment through the table's pointer, which may be NULL: an access outside the table is a
-- fault.
write_phdr : ElfClass → (ndx : ℕ) → Phdr → Elf → Option (List Phdr) → Result (Unit {0}) × Elf
unfolding store_phdr
write_phdr ec ndx new e none = (fault, e)
write_phdr ec ndx new e (some phdrs) = elim (get_elem? phdrs ndx) [
  | none ↦ (fault, e)
  | some old ↦
      let (ph, stop) = store_class ec store_phdr new old in
      (stored_result stop, record e { e_phdr = some (set phdrs ndx ph) })
]

-- From the header on.
pub put_phdr : ElfClass → ℤ → (phnum : ℕ) → Phdr → Result Ehdr × Elf → Result (Unit {0}) × Elf
unfolding write_phdr flag_phdr
put_phdr ec (negsuc n) phnum new (ok eh, e) = (err argument, e)
put_phdr ec (pos ndx) phnum new (ok eh, e) =
    if ltb phnum ndx then (err argument, e) else write_phdr ec ndx new (flag_phdr e) e.e_phdr
put_phdr ec ndx phnum new (err c, e) = (err c, e)
put_phdr ec ndx phnum new (fault, e) = (fault, e)

-- From the number of headers on.
counted_phdr : Library → ℤ → Phdr → (mem scn0 : Malloc) → Result ℕ × Elf → Result (Unit {0}) × Elf
unfolding put_phdr ehdr
counted_phdr lib ndx new mem scn0 (ok phnum, e) =
    if is_read e.e_cmd
    then (err mode, e)
    else put_phdr e.e_class ndx phnum new (ehdr lib e e.e_class false mem scn0)
counted_phdr lib ndx new mem scn0 (err c, e) = (err argument, e)
counted_phdr lib ndx new mem scn0 (fault, e) = (fault, e)

unfoldable pub gelf_update_phdr :
    Library → Elf → ℤ → Option Phdr → (mem scn0 : Malloc) → Result (Unit {0}) × Elf
unfolding counted_phdr elf_getphdrnum
gelf_update_phdr lib e ndx none mem scn0 = (err argument, e)
gelf_update_phdr lib e ndx (some new) mem scn0 =
    if not (is_elf e.e_kind) || not (has_class e.e_class)
    then (err argument, e)
    else counted_phdr lib ndx new mem scn0 (elf_getphdrnum lib e mem scn0)

-- The class of the object is asserted.
asserted_class : Elf → Result Shdr → Result Shdr
asserted_class e (ok sh) = if has_class e.e_class then ok sh else fault
asserted_class e (err c) = err c
asserted_class e fault = fault

-- `gelf_getshdr` on a section of `e`
unfoldable pub gelf_getshdr : Elf → Scn → (dst : Bool) → Result Shdr
unfolding asserted_class getshdr
gelf_getshdr e s dst = if not dst then err argument else asserted_class e (getshdr e s class_none)

-- The assignments to an Elf32_Shdr.
unfoldable pub store_gelf_shdr : Shdr → Shdr → Stored Shdr
unfolding copy_u32
store_gelf_shdr new old =
    let start = record old { sh_name = new.sh_name; sh_type = new.sh_type } in
    copy_u32 new.sh_flags start λ flags.
      let a = record start { sh_flags = flags } in
      copy_u32 new.sh_addr a λ addr.
        let b = record a { sh_addr = addr } in
        copy_u32 new.sh_offset b λ offset.
          let c = record b { sh_offset = offset } in
          copy_u32 new.sh_size c λ size.
            let d = record c { sh_size = size; sh_link = new.sh_link; sh_info = new.sh_info } in
            copy_u32 new.sh_addralign d λ align.
              let f = record d { sh_addralign = align } in
              copy_u32 new.sh_entsize f λ entsize. (record f { sh_entsize = entsize }, none)

-- `gelf_update_shdr` on a section of `e`
unfoldable pub gelf_update_shdr : Elf → Scn → Option Shdr → Result (Unit {0}) × Scn
unfolding flag_scn store_gelf_shdr
gelf_update_shdr e s none = (err argument, s)
gelf_update_shdr e s (some new) =
    let (sh, stop) = store_class e.e_class store_gelf_shdr new s.s_shdr in
    if not (is_elf e.e_kind) || not (has_class e.e_class)
    then (err argument, s)
    else if is_read e.e_cmd
    then (err mode, s)
    else (stored_result stop, record (flag_scn s) { s_shdr = sh })
