-- ===== src/Section/Data/Laws.antt =====
-- libelf/elf_data.c: what the functions on data leave of a section.
use elftoolchain_libelf.Base.{
  ℕ, ◌≡◌, ◌≢◌, refl, sym, ap, ◌∙◌, ◌++◌, Option, none, some, List, [], ◌∷◌, if◌then◌else◌,
  Bool-cases, inl, inr, true, ◌==◌, ◌||◌, ◌&&◌, not, ltb, ◌/◌, ◌*◌, ◌%◌, ◌^◌, ◌-◌, arith,
}
use elftoolchain_libelf.Base.Outcome.{
  Result, ok, err, fault, guard-ok, ErrorCode, range, unimpl, Malloc, granted, denied,
}
use elftoolchain_libelf.Format.Types.{ElfType}
use elftoolchain_libelf.Format.Size.{fsize, msize}
use elftoolchain_libelf.Format.SectionType.{sht_nobits, sht_null, xlate_shtype}
use elftoolchain_libelf.State.{is_elf, has_class, Elf, Scn, Data}
use elftoolchain_libelf.Section.Data.{
  Host, DataPtr, elf_getdata, first_data, append_data, read_data, described, is_there, fill_buffer,
  with_descriptor, counted, typed, outside,
}

-- The header and the index of a section stay.
abbrev pub Keeps : (s s' : Scn) → Type 0
Keeps s s' = (s'.s_shdr ≡ s.s_shdr) × (s'.s_ndx ≡ s.s_ndx)

first_data-Keeps :
    (e : Elf) (s : Scn) (host : Host) (ds : List Data) → Keeps s (first_data e s host ds).1
unfolding first_data
first_data-Keeps e s host (d ∷ ds) = (refl, refl)
first_data-Keeps e s host [] = ground arith

pub elf_getdata-Keeps :
    (e : Elf) (s : Scn) (p : Option DataPtr) (host : Host) → Keeps s (elf_getdata e s p host).1
unfolding elf_getdata
elf_getdata-Keeps e s none host = ground (arith, first_data-Keeps e s host s.s_data)
elf_getdata-Keeps e s (some d) host = ground arith

-- What the descriptor that is read from the file says of the section.
pub record Describes (e : Elf) (s : Scn) (d : Data) : Type 0 where
  pub aligned : d.d_align ≡ s.s_shdr.sh_addralign
  pub versioned : d.d_version ≡ e.e_version
  pub has_type : is_there d.d_type ≡ true

fill_buffer-Describes :
    (e : Elf) (host : Host) (file : List ℕ) (s : Scn) (t : ElfType) (count size : ℕ) (d : Data)
    → fill_buffer e host file s.s_shdr t count (described e s.s_shdr t size) ≡ ok d
    → Describes e s d
unfolding fill_buffer
fill_buffer-Describes e host file s t count size d h = ground (arith, h)

with_descriptor-Describes :
    (e : Elf) (host : Host) (file : List ℕ) (s : Scn) (t : ElfType) (count size : ℕ) (mem : Malloc)
    (d : Data)
    → with_descriptor e host file s.s_shdr t count size mem ≡ ok d
    → Describes e s d
unfolding with_descriptor
with_descriptor-Describes e host file s t count size (denied n) d h = ground (arith, h)
with_descriptor-Describes e host file s t count size granted d h =
    elim (Bool-cases ((s.s_shdr.sh_type == sht_nobits) || (s.s_shdr.sh_size == 0))) [
      | inl nothing ↦ ground (arith, h, nothing)
      | inr some_bytes ↦ fill_buffer-Describes e host file s t count size d (rw some_bytes at h)
    ]

counted-Describes :
    (e : Elf) (host : Host) (file : List ℕ) (s : Scn) (t : ElfType) (fsz : ℕ) (d : Data)
    → counted e host file s.s_shdr t fsz ≡ ok d
    → Describes e s d
unfolding counted
counted-Describes e host file s t fsz d h =
    let count = s.s_shdr.sh_size / fsz in
    let msz = msize t e.e_class e.e_version in
    let large = not (count == 0) && ltb ((2 ^ 64 - 1) / count) msz in
    let read : Result Data =
      with_descriptor e host file s.s_shdr t count (msz * count) host.descriptor in
    let sized : Result Data = if msz == 0 then fault else read in
    let (whole, h1) =
      guard-ok (not (s.s_shdr.sh_size % fsz == 0)) ErrorCode.section
        {m = if large then err range else sized} h in
    let (fits, h2) = guard-ok large range {m = sized} h1 in
    elim (Bool-cases (msz == 0)) [
      | inl none_there ↦ ground (arith, h2, none_there)
      | inr there ↦
          with_descriptor-Describes e host file s t count (msz * count) host.descriptor d
            (rw there at h2)
    ]

typed-Describes :
    (e : Elf) (host : Host) (file : List ℕ) (s : Scn) (o : Option ElfType) (d : Data)
    → typed e host file s.s_shdr o ≡ ok d
    → Describes e s d
unfolding typed
typed-Describes e host file s none d h = ground (arith, h)
typed-Describes e host file s (some t) d h =
    let fsz = (fsize (some t) e.e_class e.e_version 1).0 in
    let read : Result Data = counted e host file s.s_shdr t fsz in
    let away = not (s.s_shdr.sh_type == sht_nobits) && outside file s.s_shdr in
    let (inside, h1) =
      guard-ok away ErrorCode.section {m = if fsz == 0 then err unimpl else read} h in
    let (implemented, h2) = guard-ok (fsz == 0) unimpl {m = read} h1 in
    counted-Describes e host file s t fsz d h2

read_data-Describes :
    (e : Elf) (s : Scn) (host : Host) (o : Option (List ℕ)) (d : Data)
    → read_data e s host o ≡ ok d
    → (s.s_shdr.sh_type ≢ sht_null) × Describes e s d
unfolding read_data
read_data-Describes e s host none d h = ground (arith, h)
read_data-Describes e s host (some file) d h = elim (Bool-cases (has_class e.e_class)) [
  | inl known ↦
      let read : Result Data = typed e host file s.s_shdr (xlate_shtype s.s_shdr.sh_type) in
      let (there, h1) =
        guard-ok (s.s_shdr.sh_type == sht_null) ErrorCode.section {m = read} (rw known at h) in
      (ground (arith, there), typed-Describes e host file s (xlate_shtype s.s_shdr.sh_type) d h1)
  | inr unknown ↦ ground (arith, h, unknown)
]

-- `elf_getdata` on a section without data, where it succeeds.
pub elf_getdata-read :
    (e : Elf) (s s' : Scn) (host : Host) (p : DataPtr)
    → s.s_data ≡ []
    → elf_getdata e s none host ≡ (ok p, s')
    → (d : Data) × (s'.s_data ≡ d ∷ []) × (s.s_shdr.sh_type ≢ sht_null) × Describes e s d
unfolding elf_getdata
elf_getdata-read e s s' host p empty h = elim (Bool-cases (is_elf e.e_kind)) [
  | inr other ↦ ground (arith, h, other)
  | inl elf ↦ by_data s.s_data empty (rw elf at h)
]
  where
    by_read :
        (r : Result Data)
        → read_data e s host e.e_rawfile ≡ r
        → (elim r as (λ x. Result DataPtr × Scn) [
          | ok d ↦ (ok (record { d_scn = s.s_ndx; place = 0 }), append_data s d)
          | err c ↦ (err c, s)
          | fault ↦ (fault, s)
        ])
          ≡ (ok p, s')
        → (d : Data) × (s'.s_data ≡ d ∷ []) × (s.s_shdr.sh_type ≢ sht_null) × Describes e s d
    by_read (ok d) q k =
        let (there, describes) = read_data-Describes e s host e.e_rawfile d q in
        (d, sym (ap (λ x. (x.1).s_data) k) ∙ ap (λ l. l ++ (d ∷ [])) empty, there, describes)
    by_read (err c) q k = ground (arith, k)
    by_read fault q k = ground (arith, k)

    by_data :
        (ds : List Data)
        → ds ≡ []
        → first_data e s host ds ≡ (ok p, s')
        → (d : Data) × (s'.s_data ≡ d ∷ []) × (s.s_shdr.sh_type ≢ sht_null) × Describes e s d
    by_data (x ∷ ds) q k = ground (arith, q)
    by_data [] q k = by_read (read_data e s host e.e_rawfile) refl k
