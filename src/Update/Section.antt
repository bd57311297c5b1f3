-- ===== src/Update/Section.antt =====
-- libelf/elf_update.c: `_libelf_compute_section_extents`, which lays out the data of a section, and
-- places the section behind what is laid out already.
pub mod Keeps
pub mod Unaligned
pub mod Placing
pub mod Packing
use elftoolchain_libelf.Base.{
  ℕ, ◌+◌, ◌-◌, ◌*◌, ◌/◌, ◌%◌, ◌^◌, Bool, not, ◌&&◌, ◌||◌, Option, none, some, List, [], ◌∷◌, ltb,
  ◌==◌, if◌then◌else◌, bit_and,
}
use elftoolchain_libelf.Base.Outcome.{Result, ok, err, fault, data_error, version, layout}
use elftoolchain_libelf.Format.Types.{ElfClass, class_32, ElfType}
use elftoolchain_libelf.Format.Size.{fsize, msize}
use elftoolchain_libelf.Format.SectionType.{xlate_shtype, sht_null, sht_nobits}
use elftoolchain_libelf.Format.Align.{falign}
use elftoolchain_libelf.State.{is_write, Elf, Scn, Shdr, Data}
use elftoolchain_libelf.Flag.{f_layout, f_dirty}
use elftoolchain_libelf.Section.Data.{Host, DataPtr, elf_getdata}
use elftoolchain_libelf.Update.Extent.{add64}

-- e->e_flags & ELF_F_LAYOUT: the application does the layout.
abbrev pub by_application : Elf → Bool
by_application e = not (bit_and e.e_flags f_layout == 0)

-- `roundup` and `roundup2` on uint64_t; `y` is not 0.
unfoldable pub roundup64 : (x y : ℕ) → ℕ
roundup64 x y = (x + (y - 1)) % 2 ^ 64 / y * y

-- The checks of a data descriptor: its type, and the size of an element in memory. A size of 0
-- divides by zero.
check_typed : Elf → Data → ElfType → Result (ElfType × ℕ)
unfolding msize
check_typed e d t =
    let msz = msize t e.e_class e.e_version in
    if not (d.d_version == e.e_version)
    then err version
    else if (d.d_align == 0) || not (bit_and d.d_align (d.d_align - 1) == 0)
    then err data_error
    else if msz == 0
    then fault
    else if not (d.d_size % msz == 0)
    then err data_error
    else if by_application e && not (bit_and d.d_off (d.d_align - 1) == 0)
    then err layout
    else ok (t, msz)

pub check_data : Elf → Data → Result (ElfType × ℕ)
unfolding check_typed
check_data e d = elim d.d_type [ none ↦ err data_error | some t ↦ check_typed e d t ]

-- The size of the section with the data of `d`, and the descriptor with the offset it gets.
unfoldable pub place_data : Elf → Data → (t : ElfType) → (msz scn_size : ℕ) → ℕ × Data
unfolding roundup64 fsize
place_data e d t msz scn_size =
    let end = add64 d.d_off d.d_size in
    let off = roundup64 scn_size d.d_align in
    let fsz = (fsize (some t) e.e_class d.d_version (d.d_size / msz)).0 in
    if by_application e
    then ((if ltb scn_size end then end else scn_size), d)
    else (add64 off fsz, record d { d_off = off })

-- The loop over the data descriptors: the size and the alignment of the section, and the descriptors.
-- Those behind one that fails stay as they were.
unfoldable pub data_extents :
    Elf → List Data → (scn_size scn_alignment : ℕ) → Result (ℕ × ℕ) × List Data
unfolding check_data place_data
data_extents e [] scn_size scn_alignment = (ok (scn_size, scn_alignment), [])
data_extents e (d ∷ ds) scn_size scn_alignment = elim (check_data e d) [
  | ok (t, msz) ↦
      let (size, d') = place_data e d t msz scn_size in
      let (r, ds') =
        data_extents e ds size (if ltb scn_alignment d.d_align then d.d_align else scn_alignment) in
      (r, d' ∷ ds')
  | err c ↦ (err c, d ∷ ds)
  | fault ↦ (fault, d ∷ ds)
]

-- updatedescriptor:
abbrev pub update_descriptor : Scn → (sh_size sh_offset : ℕ) → Scn
update_descriptor s sh_size sh_offset = record s { s_size = sh_size; s_offset = sh_offset }

-- The members of a 32-bit header are stored modulo 2 ^ 32.
unfoldable pub store_shdr : ElfClass → Shdr → (align entsize offset size : ℕ) → Shdr
store_shdr class_32 sh align entsize offset size = record sh {
  sh_addralign = align % 2 ^ 32;
  sh_entsize = entsize % 2 ^ 32;
  sh_offset = offset % 2 ^ 32;
  sh_size = size % 2 ^ 32;
}
store_shdr ec sh align entsize offset size = record sh {
  sh_addralign = align;
  sh_entsize = entsize;
  sh_offset = offset;
  sh_size = size;
}

-- computeoffset:
compute_offset : Elf → Scn → (rc align entsize size : ℕ) → Result (Unit {0}) × Scn
unfolding roundup64 store_shdr
compute_offset e s rc align entsize size =
    let off = roundup64 rc align in
    if align == 0 then (fault, s) else (
      ok tt,
      update_descriptor (record s { s_shdr = store_shdr e.e_class s.s_shdr align entsize off size })
          size off,
    )

-- The checks where the application does the layout. A division by zero is a fault.
check_layout :
    Elf → Scn → Option ElfType → (sh_align scn_size scn_alignment : ℕ) → Result (Unit {0}) × Scn
unfolding falign
check_layout e s t sh_align scn_size scn_alignment =
    let sh = s.s_shdr in
    if ltb sh_align scn_alignment
    then (err layout, s)
    else if sh_align == 0
    then (fault, s)
    else if not (sh.sh_offset % sh_align == 0) || ltb sh.sh_size scn_size
    then (err layout, s)
    else if falign t e.e_class == 0
    then (fault, s)
    else if not (sh.sh_offset % falign t e.e_class == 0)
    then (err layout, s)
    else (ok tt, update_descriptor s sh.sh_size sh.sh_offset)

-- The entry size that is stored: that of the type's elements if none is given, and they have one.
unfoldable pub entry_size : Elf → Option ElfType → (sh_entsize : ℕ) → ℕ
unfolding fsize
entry_size e t sh_entsize =
    let fsz = (fsize t e.e_class e.e_version 1).0 in
    if not (sh_entsize == 0) then sh_entsize else if fsz == 1 then 0 else fsz

-- From the end of the loop on.
after_loop :
    Elf → Option ElfType → (rc sh_align : ℕ) → Scn → Result (ℕ × ℕ) → Result (Unit {0}) × Scn
unfolding check_layout compute_offset entry_size
after_loop e t rc sh_align s (ok (scn_size, scn_alignment)) =
    if by_application e
    then check_layout e s t sh_align scn_size scn_alignment
    else compute_offset e s rc (if ltb sh_align scn_alignment then scn_alignment else sh_align)
        (entry_size e t s.s_shdr.sh_entsize) scn_size
after_loop e t rc sh_align s (err c) = (err c, s)
after_loop e t rc sh_align s fault = (fault, s)

-- From the loop on.
lay_out_data : Elf → Option ElfType → (rc sh_align : ℕ) → Scn → Result (Unit {0}) × Scn
unfolding data_extents after_loop
lay_out_data e t rc sh_align s =
    let (r, ds) = data_extents e s.s_data 0 0 in
    after_loop e t rc sh_align (record s { s_data = ds }) r

-- A failure of `elf_getdata` ends the function.
after_getdata :
    Elf → Option ElfType → (rc sh_align : ℕ) → Result DataPtr × Scn → Result (Unit {0}) × Scn
unfolding lay_out_data
after_getdata e t rc sh_align (ok p, s) = lay_out_data e t rc sh_align s
after_getdata e t rc sh_align (err c, s) = (err c, s)
after_getdata e t rc sh_align (fault, s) = (fault, s)

-- From the test of the list of data on.
by_data :
    Elf → Option ElfType → (rc sh_align : ℕ) → Scn → Host → List Data → Result (Unit {0}) × Scn
unfolding lay_out_data compute_offset after_getdata elf_getdata
by_data e t rc sh_align s host (d ∷ ds) = lay_out_data e t rc sh_align s
by_data e t rc sh_align s host [] =
    let sh = s.s_shdr in
    if bit_and s.s_flags f_dirty == 0
    then (if by_application e
        then (ok tt, update_descriptor s sh.sh_size sh.sh_offset)
        else compute_offset e s rc sh_align sh.sh_entsize sh.sh_size)
    else if is_write e.e_cmd
    then lay_out_data e t rc sh_align s
    else after_getdata e t rc sh_align (elf_getdata e s none host)

-- `_libelf_compute_section_extents`: 1 is `ok`. The type -1 that `_libelf_xlate_shtype` gives for an
-- unknown type of section is not above ELF_T_LAST, and is taken.
unfoldable pub compute_section_extents : Elf → Scn → (rc : ℕ) → Host → Result (Unit {0}) × Scn
unfolding by_data falign xlate_shtype
compute_section_extents e s rc host =
    let sh = s.s_shdr in
    let t = xlate_shtype sh.sh_type in
    let sh_align = if sh.sh_addralign == 0 then falign t e.e_class else sh.sh_addralign in
    if (sh.sh_type == sht_null) || (sh.sh_type == sht_nobits)
    then (fault, s)
    else by_data e t rc sh_align s host s.s_data
