-- ===== src/Update/Section/Placing.antt =====
-- libelf/elf_update.c: where the loop over the data descriptors of a section puts them.
use native.Mathlib.Nat.{mul-mod_left}
use elftoolchain_libelf.Base.{
  ℕ, ◌+◌, ◌-◌, ◌/◌, ◌%◌, ◌^◌, ◌≤◌, ◌<◌, ◌≡◌, refl, sym, ap, ◌∙◌, inl, inr, false, Option, not, ◌&&◌,
  ◌||◌, bit_and, none, some, List, [], ◌∷◌, All, ◌==◌, ltb, if◌then◌else◌, Bool-cases, arith,
}
use elftoolchain_libelf.Base.Outcome.{Result, ok, err, fault, guard-ok, version, data_error, layout}
use elftoolchain_libelf.Format.Types.{ElfType}
use elftoolchain_libelf.Format.Size.{fsize, msize}
use elftoolchain_libelf.State.{Elf, Data}
use elftoolchain_libelf.Update.Extent.{add64}
use elftoolchain_libelf.Update.Section.{
  by_application, roundup64, check_data, check_typed, place_data, data_extents,
}

-- Rounding up without a wrap: to a multiple, that is the least one not below.
pub roundup64_lem :
    (x y : ℕ)
    → 0 < y
    → x + y ≤ 2 ^ 64
    → (x ≤ roundup64 x y) × (roundup64 x y % y ≡ 0) × (roundup64 x y < x + y)
unfolding roundup64
roundup64_lem x y pos small =
    (grind arith, mul-mod_left ((x + (y - 1)) % 2 ^ 64 / y) y, grind arith)

-- The bytes that a data descriptor takes in the file.
abbrev pub data_size : Elf → Data → ℕ
data_size e d = elim d.d_type [
  | none ↦ 0
  | some t ↦ (fsize (some t) e.e_class d.d_version (d.d_size / msize t e.e_class e.e_version)).0
]

-- An upper bound of what the descriptors need, padding included.
abbrev pub needed : Elf → List Data → ℕ
needed e [] = 0
needed e (d ∷ ds) = d.d_align + data_size e d + needed e ds

-- The data lie one behind the other from `lo` up to `hi`, each at a multiple of its alignment.
abbrev pub Packed : Elf → (lo : ℕ) → List Data → (hi : ℕ) → Type 0
Packed e lo [] hi = lo ≡ hi
Packed e lo (d ∷ ds) hi =
    (lo ≤ d.d_off) × (d.d_off % d.d_align ≡ 0) × Packed e (d.d_off + data_size e d) ds hi

check_typed-ok :
    (e : Elf) (d : Data) (t t' : ElfType) (msz : ℕ)
    → check_typed e d t ≡ ok (t', msz)
    → (t ≡ t') × (msz ≡ msize t e.e_class e.e_version) × (0 < d.d_align)
unfolding check_typed
check_typed-ok e d t t' msz h =
    let old = not (d.d_version == e.e_version) in
    let bad_align = (d.d_align == 0) || not (bit_and d.d_align (d.d_align - 1) == 0) in
    let size = msize t e.e_class e.e_version in
    let odd_size = not (d.d_size % size == 0) in
    let bad_place = by_application e && not (bit_and d.d_off (d.d_align - 1) == 0) in
    let done : Result (ElfType × ℕ) = ok (t, size) in
    let placed : Result (ElfType × ℕ) = if bad_place then err layout else done in
    let sized : Result (ElfType × ℕ) = if odd_size then err data_error else placed in
    let there : Result (ElfType × ℕ) = if size == 0 then fault else sized in
    let (same_version, h1) =
      guard-ok old version {m = if bad_align then err data_error else there} h in
    let (aligned, h2) = guard-ok bad_align data_error {m = there} h1 in
    elim (Bool-cases (size == 0)) [
      | inl none_there ↦ ground (arith, h2, none_there)
      | inr some_there ↦
          let h3 : sized ≡ ok (t', msz) = rw some_there at h2 in
          let (whole, h4) = guard-ok odd_size data_error {m = placed} h3 in
          let (fits, h5) = guard-ok bad_place layout {m = done} h4 in
          (ground (arith, h5), ground (arith, h5), ground (arith, aligned))
    ]

pub check_data-ok :
    (e : Elf) (d : Data) (t : ElfType) (msz : ℕ)
    → check_data e d ≡ ok (t, msz)
    → (d.d_type ≡ some t) × (msz ≡ msize t e.e_class e.e_version) × (0 < d.d_align)
unfolding check_data
check_data-ok e d t msz h = by_type d.d_type refl h
  where
    by_type :
        (o : Option ElfType)
        → d.d_type ≡ o
        → (elim o as (λ x. Result (ElfType × ℕ)) [
          | none ↦ err data_error
          | some t' ↦ check_typed e d t'
        ])
          ≡ ok (t, msz)
        → (d.d_type ≡ some t) × (msz ≡ msize t e.e_class e.e_version) × (0 < d.d_align)
    by_type none q k = ground (arith, k)
    by_type (some t') q k =
        let (same_t, size, pos) = check_typed-ok e d t' t msz k in
        (q ∙ ap some same_t, size ∙ ap (λ x. msize x e.e_class e.e_version) same_t, pos)

-- The place of a descriptor that passed its checks.
place_data-Packed :
    (e : Elf) (d : Data) (t : ElfType) (msz lo : ℕ)
    → by_application e ≡ false
    → d.d_type ≡ some t
    → msz ≡ msize t e.e_class e.e_version
    → 0 < d.d_align
    → lo + (d.d_align + data_size e d) ≤ 2 ^ 64 - 1
    → (d' : Data) × (place_data e d t msz lo ≡ (d'.d_off + data_size e d', d'))
      × (lo ≤ d'.d_off)
      × (d'.d_off % d'.d_align ≡ 0)
      × (d'.d_off + data_size e d' < lo + (d.d_align + data_size e d))
unfolding place_data
place_data-Packed e d t msz lo no_app typed size pos room =
    let off = roundup64 lo d.d_align in
    let (above, aligned, close) = roundup64_lem lo d.d_align pos (omega arith) in
    let fsz = (fsize (some t) e.e_class d.d_version (d.d_size / msz)).0 in
    let same_size : fsz ≡ data_size e d = rw (typed, size) in
    let no_wrap : add64 off fsz ≡ off + data_size e d = rw same_size (omega arith) in
    (
      record d { d_off = off },
      rw no_app (ap (λ n. (n, record d { d_off = off })) no_wrap),
      above,
      aligned,
      omega arith,
    )

-- No descriptor asks for more than the alignment of its section.
abbrev pub AlignedBy : ℕ → List Data → Type 0
AlignedBy align ds = All (λ d. d.d_align ≤ align) ds

abbrev pub larger : ℕ → ℕ → ℕ
larger a b = if ltb a b then b else a

-- The loop goes on behind a descriptor that passed its checks.
pub data_extents-cons :
    (e : Elf) (d : Data) (ds ds2 : List Data) (lo al hi al2 : ℕ)
    → data_extents e (d ∷ ds) lo al ≡ (ok (hi, al2), ds2)
    → (t : ElfType) × (msz : ℕ) × (ds' : List Data) × (check_data e d ≡ ok (t, msz))
      × (data_extents e ds (place_data e d t msz lo).0 (larger al d.d_align) ≡ (ok (hi, al2), ds'))
      × (ds2 ≡ (place_data e d t msz lo).1 ∷ ds')
unfolding data_extents
data_extents-cons e d ds ds2 lo al hi al2 h = step (check_data e d) refl
  where
    step :
        (r : Result (ElfType × ℕ))
        → check_data e d ≡ r
        → (t : ElfType) × (msz : ℕ) × (ds' : List Data) × (check_data e d ≡ ok (t, msz))
          × (data_extents e ds (place_data e d t msz lo).0 (larger al d.d_align)
              ≡ (ok (hi, al2), ds'))
          × (ds2 ≡ (place_data e d t msz lo).1 ∷ ds')
    step (ok (t, msz)) q = (
      t,
      msz,
      (data_extents e ds (place_data e d t msz lo).0 (larger al d.d_align)).1,
      q,
      ground (arith, h, q),
      ground (arith, h, q),
    )
    step (err c) q = ground (arith, h, q)
    step fault q = ground (arith, h, q)

pub AlignedBy-mono : (ds : List Data) (a b : ℕ) → a ≤ b → AlignedBy a ds → AlignedBy b ds
AlignedBy-mono [] a b le h = tt
AlignedBy-mono (d ∷ ds) a b le h = (omega arith, AlignedBy-mono ds a b le h.1)

pub larger-ge : (a b : ℕ) → (a ≤ larger a b) × (b ≤ larger a b)
larger-ge a b = ground arith

place_data-d_align :
    (e : Elf) (d : Data) (t : ElfType) (msz lo : ℕ)
    → (place_data e d t msz lo).1.d_align ≡ d.d_align
unfolding place_data
place_data-d_align e d t msz lo = elim (Bool-cases (by_application e)) [
  | inl app ↦ rw app
  | inr no_app ↦ rw no_app
]

-- The loop packs the descriptors, and the alignment that it finds is at least that of each of them.
pub data_extents-Packed :
    (e : Elf) (ds ds2 : List Data) (lo al hi al2 : ℕ)
    → by_application e ≡ false
    → lo + needed e ds < 2 ^ 64
    → data_extents e ds lo al ≡ (ok (hi, al2), ds2)
    → Packed e lo ds2 hi × (al ≤ al2) × AlignedBy al2 ds2
unfolding data_extents
data_extents-Packed e [] ds2 lo al hi al2 no_app room h =
    let same_ds : [] ≡ ds2 = ap (λ r. r.1) h in
    let same_lo : lo ≡ hi = ground (arith, h) in
    let same_al : al ≡ al2 = ground (arith, h) in rw (← same_ds) (same_lo, omega arith, tt)
data_extents-Packed e (d ∷ ds) ds2 lo al hi al2 no_app room h =
    let (t, msz, ds', checked, rest, joined) = data_extents-cons e d ds ds2 lo al hi al2 h in
    let (typed, size, pos) = check_data-ok e d t msz checked in
    let (d', placed, above, aligned, close) =
      place_data-Packed e d t msz lo no_app typed size pos (omega arith) in
    let same_d : (place_data e d t msz lo).1 ≡ d' = ap (λ p. p.1) placed in
    let same_lo : (place_data e d t msz lo).0 ≡ d'.d_off + data_size e d' = ap (λ p. p.0) placed in
    let (packed, more, aligned_by) =
      data_extents-Packed e ds ds' (d'.d_off + data_size e d') (larger al d.d_align) hi al2 no_app
        (omega arith) (rw same_lo at rest) in
    let same_align : d'.d_align ≡ d.d_align =
      ap (λ x. x.d_align) (sym same_d) ∙ place_data-d_align e d t msz lo in
    let (ge_al, ge_d) = larger-ge al d.d_align in
    rw joined (rw same_d ((above, aligned, packed), omega arith, (omega arith, aligned_by)))
