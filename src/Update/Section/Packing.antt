-- ===== src/Update/Section/Packing.antt =====
-- libelf/elf_update.c: where `_libelf_compute_section_extents` puts the data of a section.
use mathlib.Core.Path.{subst}
use native.Mathlib.Nat.{le_trans}
use elftoolchain_libelf.Base.{
  ℕ, ◌^◌, ◌≤◌, ◌<◌, ◌≡◌, ◌≢◌, refl, sym, ap, ◌∙◌, inl, inr, false, Option, ◌||◌, List, [], ◌∷◌,
  ◌==◌, if◌then◌else◌, Bool-cases, arith,
}
use elftoolchain_libelf.Base.Outcome.{Result, ok, err, fault}
use elftoolchain_libelf.Format.Types.{ElfType}
use elftoolchain_libelf.State.{Elf, Scn, Data}
use elftoolchain_libelf.Section.Data.{Host}
use elftoolchain_libelf.Format.SectionType.{xlate_shtype, sht_null, sht_nobits}
use elftoolchain_libelf.Format.Align.{falign}
use elftoolchain_libelf.Update.Section.{
  compute_offset, entry_size, after_loop, lay_out_data, by_data, compute_section_extents,
  by_application, roundup64, data_extents,
}
use elftoolchain_libelf.Update.Section.Placing.{
  needed, Packed, AlignedBy, larger, AlignedBy-mono, larger-ge, data_extents-Packed,
}

module _ (e : Elf) (t : Option ElfType) (rc sh_align : ℕ) (s : Scn)
    (no_app : by_application e ≡ false) where
  compute_offset-ok :
      (s' : Scn) (align entsize size : ℕ)
      → compute_offset e s rc align entsize size ≡ (ok tt, s')
      → (s'.s_size ≡ size) × (s'.s_offset ≡ roundup64 rc align) × (s'.s_data ≡ s.s_data)
  unfolding compute_offset
  compute_offset-ok s' align entsize size h = elim (Bool-cases (align == 0)) [
    | inl none_given ↦ ground (arith, h, none_given)
    | inr given ↦
        let k = rw given at h in
        (
          sym (ap (λ p. (p.1).s_size) k),
          sym (ap (λ p. (p.1).s_offset) k),
          sym (ap (λ p. (p.1).s_data) k),
        )
  ]

  after_loop-ok :
      (s' : Scn) (r : Result (ℕ × ℕ))
      → after_loop e t rc sh_align s r ≡ (ok tt, s')
      → (size al : ℕ) × (r ≡ ok (size, al))
        × (s'.s_size ≡ size)
        × (s'.s_data ≡ s.s_data)
        × (s'.s_offset ≡ roundup64 rc (larger sh_align al))
  unfolding after_loop
  after_loop-ok s' (ok (size, al)) h =
      let (same_size, same_off, same_data) =
        compute_offset-ok s' (larger sh_align al) (entry_size e t s.s_shdr.sh_entsize) size
          (rw no_app at h) in
      (size, al, refl, same_size, same_data, same_off)
  after_loop-ok s' (err c) h = ground (arith, h)
  after_loop-ok s' fault h = ground (arith, h)

lay_out_data-Packed :
    (e : Elf) (t : Option ElfType) (rc sh_align : ℕ) (s s' : Scn)
    → by_application e ≡ false
    → needed e s.s_data < 2 ^ 64
    → lay_out_data e t rc sh_align s ≡ (ok tt, s')
    → Packed e 0 s'.s_data s'.s_size
      × ((align : ℕ) × AlignedBy align s'.s_data
          × (sh_align ≤ align)
          × (s'.s_offset ≡ roundup64 rc align))
unfolding lay_out_data
lay_out_data-Packed e t rc sh_align s s' no_app room h =
    let (r, ds) = data_extents e s.s_data 0 0 in
    let (size, al, done, same_size, same_data, same_off) =
      after_loop-ok e t rc sh_align (record s { s_data = ds }) no_app s' r h in
    let (packed, more, aligned_by) =
      data_extents-Packed e s.s_data ds 0 0 size al no_app (omega arith) (ap (λ x. (x, ds)) done) in
    let (ge_sh, ge_al) = larger-ge sh_align al in
    let align = larger sh_align al in
    (
      subst (λ n. Packed e 0 s'.s_data n) (sym same_size)
          (subst (λ l. Packed e 0 l size) (sym same_data) packed),
      (
        align,
        subst (AlignedBy align) (sym same_data) (AlignedBy-mono ds al align ge_al aligned_by),
        ge_sh,
        same_off,
      ),
    )

by_data-some :
    (e : Elf) (t : Option ElfType) (rc sh_align : ℕ) (s : Scn) (host : Host) (ds : List Data)
    → ds ≢ []
    → by_data e t rc sh_align s host ds ≡ lay_out_data e t rc sh_align s
unfolding by_data
by_data-some e t rc sh_align s host [] h = absurd (h refl)
by_data-some e t rc sh_align s host (d ∷ ds) h = refl

asked_align : (asked natural : ℕ) → asked ≤ (if asked == 0 then natural else asked)
asked_align asked natural = ground arith

-- Where `compute_section_extents` succeeds on a section that has data, and the library does the
-- layout, the data lie one behind the other from 0 up to the size of the section, none overlapping
-- the next, each at a multiple of its alignment; and the section begins at `rc` rounded up to an
-- alignment not below that of any of its data, nor below the one that its header asks for. What the
-- data need, padding included, must stay below 2 ^ 64.
pub compute_section_extents-Packed :
    (e : Elf) (s s' : Scn) (rc : ℕ) (host : Host)
    → s.s_data ≢ []
    → by_application e ≡ false
    → needed e s.s_data < 2 ^ 64
    → compute_section_extents e s rc host ≡ (ok tt, s')
    → Packed e 0 s'.s_data s'.s_size
      × ((align : ℕ) × AlignedBy align s'.s_data
          × (s.s_shdr.sh_addralign ≤ align)
          × (s'.s_offset ≡ roundup64 rc align))
unfolding compute_section_extents
compute_section_extents-Packed e s s' rc host some_data no_app room h =
    elim (Bool-cases ((s.s_shdr.sh_type == sht_null) || (s.s_shdr.sh_type == sht_nobits))) [
      | inl skipped ↦ ground (arith, h, skipped)
      | inr there ↦
          let sh = s.s_shdr in
          let t = xlate_shtype sh.sh_type in
          let al = if sh.sh_addralign == 0 then falign t e.e_class else sh.sh_addralign in
          let asked = asked_align sh.sh_addralign (falign t e.e_class) in
          let (packed, (align, aligned_by, ge, off)) =
            lay_out_data-Packed e t rc al s s' no_app room
              (sym (by_data-some e t rc al s host s.s_data some_data) ∙ rw there at h) in
          (packed, (align, aligned_by, le_trans asked ge, off))
    ]
