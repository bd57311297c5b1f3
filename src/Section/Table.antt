-- ===== src/Section/Table.antt =====
-- libelf/elf_scn.c: the section table, loaded from a file or built by an application.
pub mod Numbers
pub mod Index
pub mod Walk
pub mod Loading
use elftoolchain_libelf.Base.{
  ℕ, zero, suc, ◌+◌, ◌-◌, ◌*◌, ◌/◌, ◌%◌, ◌^◌, Bool, true, false, not, ◌&&◌, ◌||◌, Option, none,
  some, List, [], ◌∷◌, ◌++◌, length, drop, ltb, ◌==◌, if◌then◌else◌, bit_and, bit_or,
}
use elftoolchain_libelf.Base.Outcome.{
  Result, ok, err, fault, argument, class, header, resource, Malloc, granted, denied,
}
use elftoolchain_libelf.Format.Types.{ElfClass, class_none, t_shdr}
use elftoolchain_libelf.Format.Size.{fsize}
use elftoolchain_libelf.State.{is_write, is_elf, has_class, Elf, Scn, Shdr, Ehdr, ElfKind, k_elf}
use elftoolchain_libelf.Numbering.{allocate_scn, new_scn, raw_size}
use elftoolchain_libelf.Header.Ehdr.{Library, ehdr, raw_bytes, swaps}
use elftoolchain_libelf.Section.Data.{flag_scn}

-- LIBELF_F_SHDRS_LOADED
abbrev pub f_shdrs_loaded : ℕ
f_shdrs_loaded = 0x200000

-- The answers of the allocator to one call: for the executable header, for section 0 in it, and for
-- the sections, by their index.
pub record Answers : Type 0 where
  pub ehdr_mem : Malloc
  pub scn0_mem : Malloc
  pub scn_mem : ℕ → Malloc

-- The section that the loop allocates and fills, where `sh` is what the routine translates.
abbrev pub read_scn : (i : ℕ) → Shdr → Scn
read_scn i sh = record (new_scn i) {
  s_shdr = sh;
  s_offset = sh.sh_offset;
  s_rawoff = sh.sh_offset;
  s_size = sh.sh_size;
}

-- The loop, with `n` rounds left: the sections that it appends, and the errno of a failure. What
-- was appended before a failure stays.
load_loop : (List ℕ → Shdr) → (fsz n i : ℕ) → (src : List ℕ) → (ℕ → Malloc) → List Scn × Option ℕ
load_loop xlator fsz zero i src mem = ([], none)
load_loop xlator fsz (suc n) i src mem =
    let (rest, failed) = load_loop xlator fsz n (i + 1) (drop fsz src) mem in
    elim (mem i) [
      | denied errno ↦ ([], some errno)
      | granted ↦ (read_scn i (xlator src) ∷ rest, failed)
    ]

-- The end of `_libelf_load_section_headers`.
loaded : Elf → List Scn × Option ℕ → Result (Unit {0}) × Elf
loaded e (scns, some errno) = (err (resource errno), record e { e_scn = e.e_scn ++ scns })
loaded e (scns, none) =
    (ok tt, record e { e_scn = e.e_scn ++ scns; e_flags = bit_or e.e_flags f_shdrs_loaded })

-- From the check of the header on; section 0 is there already if the object has extended numbers.
load_checked : Library → Elf → (fsz shoff : ℕ) → (ℕ → Malloc) → List Scn → Result (Unit {0}) × Elf
unfolding load_loop loaded
load_checked lib e fsz shoff mem [] =
    loaded e (
      load_loop (lib.to_shdr e.e_class (swaps lib e)) fsz e.e_nscn 0 (drop shoff (raw_bytes e)) mem)
load_checked lib e fsz shoff mem (s ∷ []) = loaded e (
    load_loop (lib.to_shdr e.e_class (swaps lib e)) fsz (e.e_nscn - 1) 1
      (drop (shoff + fsz) (raw_bytes e)) mem)
load_checked lib e fsz shoff mem (s ∷ s' ∷ rest) = (fault, e)

-- `_libelf_load_section_headers`, with CHECK_EHDR
unfoldable pub load_section_headers : Library → Elf → Ehdr → (ℕ → Malloc) → Result (Unit {0}) × Elf
unfolding load_checked fsize
load_section_headers lib e eh mem =
    let fsz = (fsize (some t_shdr) e.e_class e.e_version 1).0 in
    if not (bit_and e.e_flags f_shdrs_loaded == 0) || (fsz == 0)
    then (fault, e)
    else if ltb (raw_size e) eh.e_shoff
        || not (fsz == eh.e_shentsize)
        || ltb ((2 ^ 64 - 1) / fsz) e.e_nscn
        || ltb (raw_size e - eh.e_shoff) (fsz * e.e_nscn)
    then (err header, e)
    else load_checked lib e fsz eh.e_shoff mem e.e_scn

-- The headers are loaded unless they are there already, or there is no file to read.
unfoldable pub want_headers : Library → (ℕ → Malloc) → Result Ehdr × Elf → Result (Unit {0}) × Elf
unfolding load_section_headers
want_headers lib mem (ok eh, e) =
    if not (is_write e.e_cmd) && (bit_and e.e_flags f_shdrs_loaded == 0)
    then load_section_headers lib e eh mem
    else (ok tt, e)
want_headers lib mem (err c, e) = (err c, e)
want_headers lib mem (fault, e) = (fault, e)

-- The search of `elf_getscn`. A pointer to a section is its place in the list.
unfoldable pub find_scn : List Scn → (index place : ℕ) → Option ℕ
find_scn [] index place = none
find_scn (s ∷ ss) index place =
    let rest = find_scn ss index (place + 1) in if s.s_ndx == index then some place else rest

search_scn : (index : ℕ) → Result (Unit {0}) × Elf → Result ℕ × Elf
unfolding find_scn
search_scn index (ok u, e) = elim (find_scn e.e_scn index 0) [
  | some place ↦ (ok place, e)
  | none ↦ (err argument, e)
]
search_scn index (err c, e) = (err c, e)
search_scn index (fault, e) = (fault, e)

-- `elf_getscn` on a descriptor that is not NULL
unfoldable pub elf_getscn : Library → Elf → (index : ℕ) → Answers → Result ℕ × Elf
unfolding search_scn want_headers ehdr
elf_getscn lib e index a =
    if not (is_elf e.e_kind) || not (has_class e.e_class)
    then (err argument, e)
    else search_scn index
        (want_headers lib a.scn_mem (ehdr lib e e.e_class false a.ehdr_mem a.scn0_mem))

-- `elf_ndxscn`; the result is SHN_UNDEF, and an error is set, if there is no section.
unfoldable pub elf_ndxscn : Option Scn → Result ℕ
elf_ndxscn none = err argument
elf_ndxscn (some s) = ok s.s_ndx

-- The last steps of `elf_newscn`: the new section is the last one of the list, and is flagged.
add_scn : Elf → Malloc → Result ℕ × Elf
unfolding flag_scn
add_scn e (denied errno) = (err (resource errno), e)
add_scn e granted = (
  ok (length e.e_scn),
  record e {
    e_scn = e.e_scn ++ (flag_scn (new_scn e.e_nscn) ∷ []);
    e_nscn = (e.e_nscn + 1) % 2 ^ 64;
  },
)

-- An object without sections gets section 0 first.
first_scn : Elf → (mem0 mem1 : Malloc) → Result ℕ × Elf
unfolding add_scn
first_scn e (denied errno) mem1 = (err (resource errno), e)
first_scn e granted mem1 = add_scn (record e { e_scn = new_scn 0 ∷ []; e_nscn = 1 }) mem1

-- The steps of `elf_newscn` from the list of sections on.
grow_scn : Elf → (ℕ → Malloc) → List Scn → Result ℕ × Elf
unfolding add_scn first_scn
grow_scn e mem (s ∷ ss) = if e.e_nscn == 0 then (fault, e) else add_scn e (mem e.e_nscn)
grow_scn e mem [] = if not (e.e_nscn == 0) then (fault, e) else first_scn e (mem 0) (mem 1)

append_scn : (ℕ → Malloc) → Result (Unit {0}) × Elf → Result ℕ × Elf
unfolding grow_scn
append_scn mem (ok u, e) = grow_scn e mem e.e_scn
append_scn mem (err c, e) = (err c, e)
append_scn mem (fault, e) = (fault, e)

-- `elf_newscn` on a descriptor that is not NULL; `new_mem` has the answers for the sections that it
-- adds itself.
unfoldable pub elf_newscn : Library → Elf → Answers → (new_mem : ℕ → Malloc) → Result ℕ × Elf
unfolding append_scn want_headers ehdr
elf_newscn lib e a new_mem =
    if not (is_elf e.e_kind)
    then (err argument, e)
    else if not (has_class e.e_class)
    then (err class, e)
    else append_scn new_mem
        (want_headers lib a.scn_mem (ehdr lib e e.e_class false a.ehdr_mem a.scn0_mem))

-- The answer of `elf_getscn`, which is that of `elf_nextscn`.
found_scn : Result ℕ × Elf → Result (Option ℕ) × Elf
found_scn (ok place, e) = (ok (some place), e)
found_scn (err c, e) = (err c, e)
found_scn (fault, e) = (fault, e)

-- `elf_nextscn`, where `s` is a section of `e`: the next one, `none` at the end.
unfoldable pub elf_nextscn : Library → Elf → (s : Option ℕ) → Answers → Result (Option ℕ) × Elf
unfolding elf_getscn found_scn
elf_nextscn lib e none a =
    if not (is_elf e.e_kind) then (err argument, e) else found_scn (elf_getscn lib e 1 a)
elf_nextscn lib e (some place) a =
    if not (is_elf e.e_kind)
    then (err argument, e)
    else (ok (if ltb (place + 1) (length e.e_scn) then some (place + 1) else none), e)
