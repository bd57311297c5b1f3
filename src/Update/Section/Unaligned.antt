-- ===== src/Update/Section/Unaligned.antt =====
-- libelf/elf_data.c, libelf/elf_update.c: data that `elf_getdata` reads from a section that asks for no
-- alignment cannot be laid out.
use elftoolchain_libelf.Base.{
  ℕ, ◌≡◌, ◌≢◌, refl, ap, ◌∙◌, true, false, ◌||◌, Option, none, some, List, [], ◌∷◌, ◌==◌,
  if◌then◌else◌, ne→==, bit_and, arith,
}
use elftoolchain_libelf.Base.Outcome.{Result, ok, err, data_error}
use elftoolchain_libelf.Format.Types.{ElfType}
use elftoolchain_libelf.Format.SectionType.{xlate_shtype, sht_null, sht_nobits}
use elftoolchain_libelf.Format.Align.{falign}
use elftoolchain_libelf.State.{is_write, Elf, Scn, Data}
use elftoolchain_libelf.Flag.{f_dirty}
use elftoolchain_libelf.Section.Data.{Host, DataPtr, elf_getdata}
use elftoolchain_libelf.Section.Data.Laws.{elf_getdata-read}
use elftoolchain_libelf.Update.Section.{
  check_data, check_typed, data_extents, after_loop, lay_out_data, after_getdata, by_data,
  compute_section_extents,
}

check_typed-unaligned :
    (e : Elf) (d : Data) (t : ElfType)
    → d.d_align ≡ 0
    → d.d_version ≡ e.e_version
    → check_typed e d t ≡ err data_error
unfolding check_typed
check_typed-unaligned e d t unaligned versioned =
    let v : (d.d_version == e.e_version) ≡ true = ground (arith, versioned) in
    let a : (d.d_align == 0) ≡ true = ground (arith, unaligned) in rw (v, a)

module _ (e : Elf) (d : Data) (unaligned : d.d_align ≡ 0)
    (versioned : d.d_version ≡ e.e_version) where
  check_data-unaligned : check_data e d ≡ err data_error
  unfolding check_data
  check_data-unaligned = by_type d.d_type
    where
      by_type :
          (o : Option ElfType)
          → (elim o as (λ x. Result (ElfType × ℕ)) [
            | none ↦ err data_error
            | some t ↦ check_typed e d t
          ])
            ≡ err data_error
      by_type none = refl
      by_type (some t) = check_typed-unaligned e d t unaligned versioned

  data_extents-unaligned :
      (ds : List Data) (lo al : ℕ) → data_extents e (d ∷ ds) lo al ≡ (err data_error, d ∷ ds)
  unfolding data_extents
  data_extents-unaligned ds lo al = rw (check_data-unaligned, data_extents)

  lay_out_data-unaligned :
      (t : Option ElfType) (rc sh_align : ℕ) (s : Scn)
      → s.s_data ≡ d ∷ []
      → (lay_out_data e t rc sh_align s).0 ≡ err data_error
  unfolding lay_out_data after_loop
  lay_out_data-unaligned t rc sh_align s one = rw one (rw (data_extents-unaligned [] 0 0) refl)

by_data-unaligned :
    (e : Elf) (t : Option ElfType) (rc sh_align : ℕ) (s : Scn) (host : Host) (s1 : Scn)
    (p : DataPtr)
    → (lay_out_data e t rc sh_align s1).0 ≡ err data_error
    → s.s_data ≡ []
    → bit_and s.s_flags f_dirty ≢ 0
    → is_write e.e_cmd ≡ false
    → elf_getdata e s none host ≡ (ok p, s1)
    → (by_data e t rc sh_align s host s.s_data).0 ≡ err data_error
unfolding by_data after_getdata
by_data-unaligned e t rc sh_align s host s1 p refused empty dirty old got =
    let marked : (bit_and s.s_flags f_dirty == 0) ≡ false = ne→== _ 0 dirty in
    let steps : by_data e t rc sh_align s host []
        ≡ after_getdata e t rc sh_align (elf_getdata e s none host) =
      rw (marked, old) in
    ap (λ l. (by_data e t rc sh_align s host l).0) empty
    ∙ ap (λ r. r.0) steps
    ∙ ap (λ r. (after_getdata e t rc sh_align r).0) got
    ∙ refused

-- Take a section that has no data descriptors yet, is marked dirty and is not of type SHT_NOBITS, of
-- an object that is not opened with ELF_C_WRITE. If its header asks for the alignment 0, which is for
-- none, and `elf_getdata` can read its data, then `compute_section_extents` refuses it with
-- ELF_E_DATA: the descriptor that is read gets the alignment of the header, and none of 0 is taken.
pub compute_section_extents-unaligned :
    (e : Elf) (s s1 : Scn) (rc : ℕ) (host : Host) (p : DataPtr)
    → s.s_data ≡ []
    → s.s_shdr.sh_addralign ≡ 0
    → s.s_shdr.sh_type ≢ sht_nobits
    → bit_and s.s_flags f_dirty ≢ 0
    → is_write e.e_cmd ≡ false
    → elf_getdata e s none host ≡ (ok p, s1)
    → (compute_section_extents e s rc host).0 ≡ err data_error
unfolding compute_section_extents
compute_section_extents-unaligned e s s1 rc host p empty unaligned some_bits dirty old got =
    let (d, one, some_type, describes) = elf_getdata-read e s s1 host p empty got in
    let sh = s.s_shdr in
    let t = xlate_shtype sh.sh_type in
    let al = if sh.sh_addralign == 0 then falign t e.e_class else sh.sh_addralign in
    let there : ((sh.sh_type == sht_null) || (sh.sh_type == sht_nobits)) ≡ false =
      ground (arith, some_type, some_bits) in
    let refused =
      lay_out_data-unaligned e d (describes.aligned ∙ unaligned) describes.versioned t rc al s1
        one in
    rw there (by_data-unaligned e t rc al s host s1 p refused empty dirty old got)
