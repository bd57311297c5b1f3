-- ===== src/Section/Data.antt =====
-- libelf/elf_data.c: the data descriptors of a section.
pub mod Laws
use elftoolchain_libelf.Base.{
  ℕ, ◌+◌, ◌-◌, ◌*◌, ◌/◌, ◌%◌, ◌^◌, Bool, true, false, not, ◌&&◌, ◌||◌, Option, none, some, List, [],
  ◌∷◌, ◌++◌, length, drop, ltb, ◌==◌, if◌then◌else◌, bit_or,
}
use elftoolchain_libelf.Base.Outcome.{
  Result, ok, err, fault, ErrorCode, argument, unimpl, range, resource, data_error, unset, Malloc,
  granted, denied,
}
use elftoolchain_libelf.Format.Types.{ElfClass, class_none, ElfType, t_byte}
use elftoolchain_libelf.Format.Size.{fsize, msize}
use elftoolchain_libelf.Format.SectionType.{xlate_shtype, sht_null, sht_nobits}
use elftoolchain_libelf.State.{is_elf, has_class, Elf, Scn, Shdr, Data, ElfKind, k_elf, c_set}
use elftoolchain_libelf.Flag.{elf_flagscn, f_dirty}

-- What the library does not compute: the answers of the allocator, the routine that translates the
-- elements of a file to memory, of which the result is whether it succeeds, and the address of
-- `e_rawfile`. `buffer` is the address that `malloc` returns for a section's data, 0 for NULL.
pub record Host : Type 0 where
  pub descriptor : Malloc
  pub buffer : ℕ
  pub translates : ElfType → ElfClass → (src : List ℕ) → (count : ℕ) → Bool
  pub raw_address : ℕ

-- LIBELF_F_DATA_MALLOCED
abbrev pub f_data_malloced : ℕ
f_data_malloced = 0x040000

-- sh_offset > e->e_rawsize || sh_size > e->e_rawsize - sh_offset
abbrev pub outside : List ℕ → Shdr → Bool
outside file sh = ltb (length file) sh.sh_offset || ltb (length file - sh.sh_offset) sh.sh_size

-- The descriptor that `elf_getdata` fills, before a buffer is allocated.
abbrev pub described : Elf → Shdr → ElfType → (size : ℕ) → Data
described e sh t size = record {
  d_buf = 0;
  d_type = some t;
  d_size = size;
  d_off = 0;
  d_align = sh.sh_addralign;
  d_version = e.e_version;
  d_flags = 0;
}

-- STAILQ_INSERT_TAIL(&s->s_data, d, d_next)
abbrev pub append_data : Scn → Data → Scn
append_data s d = record s { s_data = s.s_data ++ (d ∷ []) }

-- From the allocation of the buffer on: the descriptor that is inserted.
fill_buffer : Elf → Host → List ℕ → Shdr → ElfType → (count : ℕ) → Data → Result Data
fill_buffer e host file sh t count d =
    if host.buffer == 0
    then err (resource 0)
    else if host.translates t e.e_class (drop sh.sh_offset file) count
    then ok (record d { d_buf = host.buffer; d_flags = bit_or d.d_flags f_data_malloced })
    else err data_error

-- From the allocation of the descriptor on.
with_descriptor : Elf → Host → List ℕ → Shdr → ElfType → (count size : ℕ) → Malloc → Result Data
unfolding fill_buffer
with_descriptor e host file sh t count size (denied errno) = err (resource 0)
with_descriptor e host file sh t count size granted =
    if (sh.sh_type == sht_nobits) || (sh.sh_size == 0)
    then ok (described e sh t size)
    else fill_buffer e host file sh t count (described e sh t size)

-- From the size of an element on. `fsz` is not 0 where this is used.
counted : Elf → Host → List ℕ → Shdr → ElfType → (fsz : ℕ) → Result Data
unfolding with_descriptor msize
counted e host file sh t fsz =
    let count = sh.sh_size / fsz in
    let msz = msize t e.e_class e.e_version in
    if not (sh.sh_size % fsz == 0)
    then err ErrorCode.section
    else if not (count == 0) && ltb ((2 ^ 64 - 1) / count) msz
    then err range
    else if msz == 0
    then fault
    else with_descriptor e host file sh t count (msz * count) host.descriptor

typed : Elf → Host → List ℕ → Shdr → Option ElfType → Result Data
unfolding counted fsize
typed e host file sh none = err ErrorCode.section
typed e host file sh (some t) =
    let fsz = (fsize (some t) e.e_class e.e_version 1).0 in
    if not (sh.sh_type == sht_nobits) && outside file sh
    then err ErrorCode.section
    else if fsz == 0
    then err unimpl
    else counted e host file sh t fsz

-- The data that `elf_getdata` brings in from the file, for a section that has none.
unfoldable pub read_data : Elf → Scn → Host → Option (List ℕ) → Result Data
unfolding typed xlate_shtype
read_data e s host none = err argument
read_data e s host (some file) =
    if not (has_class e.e_class)
    then fault
    else if s.s_shdr.sh_type == sht_null
    then err ErrorCode.section
    else typed e host file s.s_shdr (xlate_shtype s.s_shdr.sh_type)

-- A pointer to a data descriptor: the index of its section, and its place in the list.
pub record DataPtr : Type 0 where
  pub d_scn : ℕ
  pub place : ℕ

-- STAILQ_NEXT, which is NULL at the end: no error is set.
next_data : List Data → DataPtr → Result DataPtr
next_data ds d =
    if ltb (d.place + 1) (length ds) then ok (record d { place = d.place + 1 }) else err unset

-- `_ ∷ _` is a section that has data: its first descriptor is the answer.
first_data : Elf → Scn → Host → List Data → Result DataPtr × Scn
unfolding read_data
first_data e s host (d ∷ ds) = (ok (record { d_scn = s.s_ndx; place = 0 }), s)
first_data e s host [] = elim (read_data e s host e.e_rawfile) [
  | ok d ↦ (ok (record { d_scn = s.s_ndx; place = 0 }), append_data s d)
  | err c ↦ (err c, s)
  | fault ↦ (fault, s)
]

-- `elf_getdata`, on a section of the object `e`: the value returned, and the section.
unfoldable pub elf_getdata : Elf → Scn → Option DataPtr → Host → Result DataPtr × Scn
unfolding first_data next_data
elf_getdata e s none host =
    if not (is_elf e.e_kind) then (fault, s) else first_data e s host s.s_data
elf_getdata e s (some d) host =
    if not (s.s_ndx == d.d_scn)
    then (err argument, s)
    else if not (is_elf e.e_kind)
    then (fault, s)
    else (next_data s.s_data d, s)

-- elf_flagscn(s, ELF_C_SET, ELF_F_DIRTY)
unfoldable pub flag_scn : Scn → Scn
unfolding elf_flagscn
flag_scn s = elim (elf_flagscn (some s) c_set f_dirty).1 [ none ↦ s | some s' ↦ s' ]

abbrev pub fresh_data : (version : ℕ) → Data
fresh_data version = record {
  d_buf = 0;
  d_type = some t_byte;
  d_size = 0;
  d_off = 2 ^ 64 - 1;
  d_align = 1;
  d_version = version;
  d_flags = 0;
}

-- The descriptor that `elf_newdata` appends.
add_data : (version : ℕ) → Scn → Malloc → Result DataPtr × Scn
unfolding flag_scn
add_data version s (denied errno) = (err (resource 0), s)
add_data version s granted = (
  ok (record { d_scn = s.s_ndx; place = length s.s_data }),
  flag_scn (append_data s (fresh_data version)),
)

-- A failure ends `elf_newdata`.
after_getdata : (version : ℕ) → Malloc → Result DataPtr × Scn → Result DataPtr × Scn
unfolding add_data
after_getdata version mem (ok p, s) = add_data version s mem
after_getdata version mem (err c, s) = (err c, s)
after_getdata version mem (fault, s) = (fault, s)

abbrev is_there {ℓ} : {A : Type ℓ} → Option A → Bool
is_there none = false
is_there (some a) = true

-- `elf_newdata`; `version` is that of the library, and `mem` the answer for its own descriptor.
unfoldable pub elf_newdata : (version : ℕ) → Elf → Scn → Host → Malloc → Result DataPtr × Scn
unfolding after_getdata elf_getdata add_data
elf_newdata version e s host mem =
    if not (is_elf e.e_kind)
    then (fault, s)
    else if is_there e.e_rawfile && ltb 0 s.s_size && (length s.s_data == 0)
    then after_getdata version mem (elf_getdata e s none host)
    else add_data version s mem

abbrev raw_described : Elf → Shdr → (buf : ℕ) → Data
raw_described e sh buf = record {
  d_buf = buf;
  d_type = some t_byte;
  d_size = sh.sh_size;
  d_off = 0;
  d_align = sh.sh_addralign;
  d_version = e.e_version;
  d_flags = 0;
}

-- The raw data of a section that has none in its list.
unfoldable pub read_raw : Elf → Scn → Host → List ℕ → Result Data
read_raw e s host file =
    let sh = s.s_shdr in
    if not (has_class e.e_class)
    then fault
    else if (sh.sh_type == sht_null) || (not (sh.sh_type == sht_nobits) && outside file sh)
    then err ErrorCode.section
    else elim host.descriptor [
      | denied errno ↦ err (resource 0)
      | granted ↦ ok (
          raw_described e sh (
            if (sh.sh_type == sht_nobits) || (sh.sh_size == 0)
            then 0
            else host.raw_address + sh.sh_offset))
    ]

first_raw : Elf → Scn → Host → List ℕ → List Data → Result DataPtr × Scn
unfolding read_raw
first_raw e s host file (d ∷ ds) = (ok (record { d_scn = s.s_ndx; place = 0 }), s)
first_raw e s host file [] = elim (read_raw e s host file) [
  | ok d ↦
      (ok (record { d_scn = s.s_ndx; place = 0 }), record s { s_rawdata = s.s_rawdata ++ (d ∷ []) })
  | err c ↦ (err c, s)
  | fault ↦ (fault, s)
]

-- `elf_rawdata`, which does not look at the section of the descriptor that it is given.
unfoldable pub elf_rawdata : Elf → Scn → Option ℕ → Host → Result DataPtr × Scn
unfolding first_raw next_data
elf_rawdata e s d host = elim e.e_rawfile [
  | none ↦ (err argument, s)
  | some file ↦ if not (is_elf e.e_kind) then (fault, s) else elim d [
    | none ↦ first_raw e s host file s.s_rawdata
    | some i ↦ (next_data s.s_rawdata (record { d_scn = s.s_ndx; place = i }), s)
  ]
]
