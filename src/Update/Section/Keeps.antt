-- ===== src/Update/Section/Keeps.antt =====
-- libelf/elf_update.c: what `_libelf_compute_section_extents` leaves of a section.
use elftoolchain_libelf.Base.{
  ℕ, ◌≡◌, refl, ap, ◌∙◌, Option, none, List, [], ◌∷◌, Bool, Bool-cases, inl, inr, ltb, ◌==◌, ◌||◌,
  bit_and, if◌then◌else◌, arith,
}
use elftoolchain_libelf.Base.Outcome.{Result, ok, err, fault}
use elftoolchain_libelf.Format.Types.{ElfClass, class_32, class_64, class_none, ElfType}
use elftoolchain_libelf.Format.Align.{falign}
use elftoolchain_libelf.Format.SectionType.{xlate_shtype, sht_null, sht_nobits}
use elftoolchain_libelf.Flag.{f_dirty}
use elftoolchain_libelf.State.{is_write, Elf, Scn, Shdr, Data}
use elftoolchain_libelf.Section.Data.{Host, DataPtr, elf_getdata}
use elftoolchain_libelf.Section.Data.Laws.{elf_getdata-Keeps}
use elftoolchain_libelf.Update.Section.{
  compute_section_extents, by_data, after_getdata, lay_out_data, after_loop, check_layout,
  compute_offset, store_shdr, data_extents, by_application, entry_size, roundup64,
}

-- sh_type == SHT_NULL || sh_type == SHT_NOBITS
abbrev is_missing : Scn → Bool
is_missing s = (s.s_shdr.sh_type == sht_null) || (s.s_shdr.sh_type == sht_nobits)

-- The type and the index of a section stay.
pub record Keeps (s : Scn) (r : Result (Unit {0}) × Scn) : Type 0 where
  pub same_type : r.1.s_shdr.sh_type ≡ s.s_shdr.sh_type
  pub same_ndx : r.1.s_ndx ≡ s.s_ndx

stays : (s : Scn) (r : Result (Unit {0})) → Keeps s (r, s)
stays s r = record { same_type = refl; same_ndx = refl }

store_shdr-sh_type :
    (ec : ElfClass) (sh : Shdr) (align entsize offset size : ℕ)
    → (store_shdr ec sh align entsize offset size).sh_type ≡ sh.sh_type
unfolding store_shdr
store_shdr-sh_type class_none sh align entsize offset size = refl
store_shdr-sh_type class_32 sh align entsize offset size = refl
store_shdr-sh_type class_64 sh align entsize offset size = refl

compute_offset-Keeps :
    (e : Elf) (s : Scn) (rc align entsize size : ℕ)
    → Keeps s (compute_offset e s rc align entsize size)
unfolding compute_offset
compute_offset-Keeps e s rc align entsize size =
    ground (arith, store_shdr-sh_type e.e_class s.s_shdr align entsize (roundup64 rc align) size)

check_layout-Keeps :
    (e : Elf) (s : Scn) (t : Option ElfType) (sh_align size align : ℕ)
    → Keeps s (check_layout e s t sh_align size align)
unfolding check_layout
check_layout-Keeps e s t sh_align size align = ground arith

after_loop-Keeps :
    (e : Elf) (t : Option ElfType) (rc sh_align : ℕ) (s : Scn) (r : Result (ℕ × ℕ))
    → Keeps s (after_loop e t rc sh_align s r)
unfolding after_loop
after_loop-Keeps e t rc sh_align s (ok (size, align)) = elim (Bool-cases (by_application e)) [
  | inl app ↦ rw app (check_layout-Keeps e s t sh_align size align)
  | inr no_app ↦ rw no_app (
      compute_offset-Keeps e s rc (if ltb sh_align align then align else sh_align)
        (entry_size e t s.s_shdr.sh_entsize) size)
]
after_loop-Keeps e t rc sh_align s (err c) = stays s (err c)
after_loop-Keeps e t rc sh_align s fault = stays s fault

lay_out_data-Keeps :
    (e : Elf) (t : Option ElfType) (rc sh_align : ℕ) (s : Scn)
    → Keeps s (lay_out_data e t rc sh_align s)
unfolding lay_out_data
lay_out_data-Keeps e t rc sh_align s =
    let (r, ds) = data_extents e s.s_data 0 0 in
    let k = after_loop-Keeps e t rc sh_align (record s { s_data = ds }) r in
    record { same_type = k.same_type; same_ndx = k.same_ndx }

after_getdata-Keeps :
    (e : Elf) (t : Option ElfType) (rc sh_align : ℕ) (s : Scn) (r : Result DataPtr)
    → Keeps s (after_getdata e t rc sh_align (r, s))
unfolding after_getdata
after_getdata-Keeps e t rc sh_align s (ok p) = lay_out_data-Keeps e t rc sh_align s
after_getdata-Keeps e t rc sh_align s (err c) = stays s (err c)
after_getdata-Keeps e t rc sh_align s fault = stays s fault

by_data-Keeps :
    (e : Elf) (t : Option ElfType) (rc sh_align : ℕ) (s : Scn) (host : Host) (ds : List Data)
    → Keeps s (by_data e t rc sh_align s host ds)
unfolding by_data
by_data-Keeps e t rc sh_align s host (d ∷ ds) = lay_out_data-Keeps e t rc sh_align s
by_data-Keeps e t rc sh_align s host [] = elim (Bool-cases (bit_and s.s_flags f_dirty == 0)) [
  | inl clean ↦ elim (Bool-cases (by_application e)) [
    | inl app ↦ rw (clean, app) (record { same_type = refl; same_ndx = refl })
    | inr no_app ↦
        rw (clean, no_app)
          (compute_offset-Keeps e s rc sh_align s.s_shdr.sh_entsize s.s_shdr.sh_size)
  ]
  | inr dirty ↦ elim (Bool-cases (is_write e.e_cmd)) [
    | inl new ↦ rw (dirty, new) (lay_out_data-Keeps e t rc sh_align s)
    | inr old ↦ rw (dirty, old) got
  ]
]
  where
    got : Keeps s (after_getdata e t rc sh_align (elf_getdata e s none host))
    got =
        let (r, s') = elf_getdata e s none host in
        let (same_shdr, same_ndx) = elf_getdata-Keeps e s none host in
        let k = after_getdata-Keeps e t rc sh_align s' r in
        record {
          same_type = k.same_type ∙ ap (λ h. h.sh_type) same_shdr;
          same_ndx = k.same_ndx ∙ same_ndx;
        }

pub compute_section_extents-Keeps :
    (e : Elf) (s : Scn) (rc : ℕ) (host : Host) → Keeps s (compute_section_extents e s rc host)
unfolding compute_section_extents
compute_section_extents-Keeps e s rc host = elim (Bool-cases (is_missing s)) [
  | inl skipped ↦ rw skipped (stays s fault)
  | inr there ↦ rw there (
      by_data-Keeps e (xlate_shtype s.s_shdr.sh_type) rc
        (if s.s_shdr.sh_addralign == 0
          then falign (xlate_shtype s.s_shdr.sh_type) e.e_class
          else s.s_shdr.sh_addralign)
        s host s.s_data)
]
