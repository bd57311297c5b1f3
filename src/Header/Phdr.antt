-- ===== src/Header/Phdr.antt =====
-- libelf/libelf_phdr.c: the program header table.
pub mod Laws
use elftoolchain_libelf.Base.{
  ℕ, zero, suc, ◌+◌, ◌%◌, ◌^◌, Bool, true, false, not, ◌||◌, Option, none, some, List, [], ◌∷◌, ltb,
  ◌==◌, if◌then◌else◌, drop, replicate,
}
use elftoolchain_libelf.Base.Outcome.{
  Result, ok, err, fault, sequence, resource, header, Malloc, granted, denied,
}
use elftoolchain_libelf.Format.Types.{ElfClass, class_none, t_phdr, ev_current}
use elftoolchain_libelf.Format.Size.{fsize, msize}
use elftoolchain_libelf.State.{has_class, Elf, Ehdr, Phdr, c_set}
use elftoolchain_libelf.Flag.{elf_flagphdr, f_dirty}
use elftoolchain_libelf.Numbering.{raw_size}
use elftoolchain_libelf.Header.Ehdr.{Library, ehdr, raw_bytes, swaps, class_code}

-- The translation routine on `n` headers of `fsz` bytes each, from `src` on.
unfoldable pub translate_phdrs : (List ℕ → Phdr) → (fsz n : ℕ) → (src : List ℕ) → List Phdr
translate_phdrs xlator fsz zero src = []
translate_phdrs xlator fsz (suc n) src = xlator src ∷ translate_phdrs xlator fsz n (drop fsz src)

-- From the size `fsz` of the table on. The check is on a sum that may wrap; a table that is read
-- outside the file is a fault.
load_phdrs : (fsz : ℕ) → Library → Elf → ElfClass → (phoff : ℕ) → Malloc → Result (List Phdr) × Elf
unfolding translate_phdrs fsize msize
load_phdrs fsz lib e ec phoff mem =
    let one = (fsize (some t_phdr) ec e.e_version 1).0 in
    let phdrs =
      translate_phdrs (lib.to_phdr ec (swaps lib e)) one e.e_nphdr (drop phoff (raw_bytes e)) in
    if fsz == 0
    then (fault, e)
    else if ltb (raw_size e) ((phoff + fsz) % 2 ^ 64)
    then (err header, e)
    else if msize t_phdr ec ev_current == 0
    then (fault, e)
    else elim mem [
      | denied errno ↦ (err (resource 0), e)
      | granted ↦
          if ltb (raw_size e) (phoff + fsz)
          then (fault, e)
          else (ok phdrs, record e { e_phdr = some phdrs })
    ]

-- From the header on.
located : Library → ElfClass → Malloc → Result Ehdr × Elf → Result (List Phdr) × Elf
unfolding load_phdrs fsize
located lib ec mem (ok eh, e) =
    load_phdrs (fsize (some t_phdr) e.e_class e.e_version e.e_nphdr).0 lib e ec eh.e_phoff mem
located lib ec mem (err c, e) = (err c, e)
located lib ec mem (fault, e) = (fault, e)

-- From the table of the descriptor on.
find_phdr :
    Library
    → Elf
    → ElfClass
    → (eh_mem scn0 mem : Malloc) → Option (List Phdr)
    → Result (List Phdr) × Elf
unfolding located ehdr
find_phdr lib e ec eh_mem scn0 mem (some phdrs) = (ok phdrs, e)
find_phdr lib e ec eh_mem scn0 mem none = located lib ec mem (ehdr lib e ec false eh_mem scn0)

-- `_libelf_getphdr` on a descriptor that is not NULL. `eh_mem` and `scn0` are the answers for
-- `_libelf_ehdr`.
unfoldable pub getphdr :
    Library → Elf → ElfClass → (eh_mem scn0 mem : Malloc) → Result (List Phdr) × Elf
unfolding find_phdr
getphdr lib e ec eh_mem scn0 mem =
    if not (has_class ec) then (fault, e) else find_phdr lib e ec eh_mem scn0 mem e.e_phdr

-- What `calloc` leaves.
abbrev pub zero_phdr : Phdr
zero_phdr = record {
  p_type = 0;
  p_flags = 0;
  p_offset = 0;
  p_vaddr = 0;
  p_paddr = 0;
  p_filesz = 0;
  p_memsz = 0;
  p_align = 0;
}

-- elf_flagphdr(e, ELF_C_SET, ELF_F_DIRTY), whose result is not used
unfoldable pub flag_phdr : Elf → Elf
unfolding elf_flagphdr
flag_phdr e = elim (elf_flagphdr (some e) c_set f_dirty).1 [ none ↦ e | some e' ↦ e' ]

-- From the allocation on. Without headers the table is NULL, which is also the value returned.
set_phdrs : Elf → ElfClass → (count : ℕ) → Malloc → Result (Option (List Phdr)) × Elf
unfolding flag_phdr msize
set_phdrs e ec count mem =
    let table = if count == 0 then none else some (replicate count zero_phdr) in
    let done : Result (Option (List Phdr)) × Elf =
      (ok table, flag_phdr (record e { e_phdr = table; e_nphdr = count })) in
    if not (class_code e.e_class == class_code ec)
      || not (has_class ec)
      || not (e.e_version == ev_current)
      || (msize t_phdr ec e.e_version == 0)
    then (fault, e)
    else if count == 0
    then done
    else elim mem [ denied errno ↦ (err (resource 0), e) | granted ↦ done ]

after_ehdr : ElfClass → (count : ℕ) → Malloc → Result Ehdr × Elf → Result (Option (List Phdr)) × Elf
unfolding set_phdrs
after_ehdr ec count mem (ok eh, e) = set_phdrs e ec count mem
after_ehdr ec count mem (err c, e) = (err sequence, e)
after_ehdr ec count mem (fault, e) = (fault, e)

-- `_libelf_newphdr` on a descriptor that is not NULL
unfoldable pub newphdr :
    Library
    → Elf
    → ElfClass
    → (count : ℕ) → (eh_mem scn0 mem : Malloc) → Result (Option (List Phdr)) × Elf
unfolding after_ehdr ehdr
newphdr lib e ec count eh_mem scn0 mem = after_ehdr ec count mem (ehdr lib e ec false eh_mem scn0)
