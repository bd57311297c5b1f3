-- ===== src/Section/Strptr/Inside.antt =====
-- libelf/elf_strptr.c: the address that is returned points into the data of the section.
use elftoolchain_libelf.Base.{
  ℕ, ◌+◌, ◌-◌, ◌≤◌, ◌<◌, ◌≡◌, ◌≢◌, ◌⊎◌, sym, ap, ◌∙◌, inl, inr, true, false, not, ◌&&◌, ◌||◌, Bool,
  none, some, List, [], ◌∷◌, get_elem?, get_elem?-set_self, get_elem?-lt, Option-cases, ltb, leb,
  ◌==◌, if◌then◌else◌, Bool-cases, bit_and, arith,
}
use elftoolchain_libelf.Base.Outcome.{Result, ok, err, fault, argument, data_error}
use elftoolchain_libelf.State.{is_elf, Elf, Scn, Data, Shdr}
use elftoolchain_libelf.Format.SectionType.{sht_strtab}
use elftoolchain_libelf.Header.Ehdr.{Library}
use elftoolchain_libelf.Header.Gelf.{gelf_getshdr}
use elftoolchain_libelf.Section.Data.{Host, DataPtr, elf_getdata}
use elftoolchain_libelf.Section.Table.{Answers, elf_getscn}
use elftoolchain_libelf.Update.Extent.{add64}
use elftoolchain_libelf.Update.Section.{by_application}
use elftoolchain_libelf.Section.Strptr.{
  is_byte, is_empty, by_offset, by_count, aligned_count, search_data, in_section, at_section,
  elf_strptr,
}

-- The address `p` is that of a byte in the buffer of `d`.
abbrev pub Within : (p : ℕ) → Data → Type 0
Within p d = (is_byte d.d_type ≡ true) × (d.d_buf ≢ 0) × (d.d_buf ≤ p) × (p < d.d_buf + d.d_size)

pub InOne : (p : ℕ) → List Data → Type 0
InOne p [] = ⊥
InOne p (d ∷ ds) = Within p d ⊎ InOne p ds

by_offset-InOne : (offset p : ℕ) (ds : List Data) → by_offset offset ds ≡ ok p → InOne p ds
unfolding by_offset InOne
by_offset-InOne offset p [] h = ground (arith, h)
by_offset-InOne offset p (d ∷ ds) h = elim (Bool-cases (is_empty d)) [
  | inl empty ↦ inr (by_offset-InOne offset p ds (rw (empty, by_offset) at h))
  | inr full ↦ elim (Bool-cases (is_byte d.d_type)) [
    | inr other ↦ absurd (ground (arith, h, full, other))
    | inl byte ↦ elim (Bool-cases (leb d.d_off offset && ltb offset (add64 d.d_off d.d_size))) [
      | inr outside ↦ inr (by_offset-InOne offset p ds (rw (full, byte, outside, by_offset) at h))
      | inl inside ↦
          let found : ok (d.d_buf + offset - d.d_off) ≡ ok p =
            rw (full, byte, inside, by_offset) at h in
          inl (
            byte,
            ground (arith, full),
            ground (arith, found, inside),
            ground (arith, found, inside),
          )
    ]
  ]
]

-- The tests on a descriptor of some bytes, which begins at `at` in the section.
found_at :
    (offset at p : ℕ) (d : Data) (ds : List Data) (rest : Result ℕ) (bad : Bool)
    → is_byte d.d_type ≡ true
    → is_empty d ≡ false
    → (rest ≡ ok p → InOne p ds)
    → (if bad
        then err data_error
        else if ltb offset at
        then err argument
        else if ltb offset (add64 at d.d_size)
        then ok (d.d_buf + offset - at)
        else rest)
      ≡ ok p
    → InOne p (d ∷ ds)
unfolding InOne
found_at offset at p d ds rest true byte full next h = ground (arith, h)
found_at offset at p d ds rest false byte full next h = elim (Bool-cases (ltb offset at)) [
  | inl hole ↦ absurd (ground (arith, h, hole))
  | inr seen ↦ elim (Bool-cases (ltb offset (add64 at d.d_size))) [
    | inr past ↦ inr (next (rw (seen, past) at h))
    | inl inside ↦
        let found : ok (d.d_buf + offset - at) ≡ ok p = rw (seen, inside) at h in
        inl (
          byte,
          ground (arith, full),
          ground (arith, found, seen, inside),
          ground (arith, found, seen, inside),
        )
  ]
]

by_count-InOne :
    (offset count p : ℕ) (ds : List Data) → by_count offset count ds ≡ ok p → InOne p ds
unfolding by_count InOne
by_count-InOne offset count p [] h = ground (arith, h)
by_count-InOne offset count p (d ∷ ds) h = elim (Bool-cases (leb count offset)) [
  | inr before ↦ absurd (ground (arith, h, before))
  | inl seen ↦ elim (Bool-cases (is_empty d)) [
    | inl empty ↦ inr (by_count-InOne offset count p ds (rw (seen, empty, by_count) at h))
    | inr full ↦ elim (Bool-cases (is_byte d.d_type)) [
      | inr other ↦ absurd (ground (arith, h, seen, full, other))
      | inl byte ↦
          let at = aligned_count count d.d_align in
          found_at offset at p d ds (by_count offset (add64 at d.d_size) ds)
            (ltb 1 d.d_align && not (bit_and d.d_align (d.d_align - 1) == 0)) byte full
            (by_count-InOne offset (add64 at d.d_size) p ds) (rw (seen, full, byte, by_count) at h)
    ]
  ]
]

-- The address points into the data of the section at `place`.
pub record PointsInto (place : ℕ) (p : ℕ) (e : Elf) : Type 0 where
  pub section : Scn
  pub at_place : get_elem? e.e_scn place ≡ some section
  pub in_one : InOne p section.s_data

search_data-PointsInto :
    (e e' : Elf) (place offset p : ℕ) (old : Scn) (r : Result DataPtr × Scn)
    → get_elem? e.e_scn place ≡ some old
    → search_data e place offset r ≡ (ok p, e')
    → PointsInto place p e'
unfolding search_data
search_data-PointsInto e e' place offset p old (ok d, s) there h =
    let found = ap (λ r. r.0) h in
    let same = ap (λ r. r.1) h in
    rw (← same) (record {
      section = s;
      at_place = get_elem?-set_self e.e_scn place s (get_elem?-lt e.e_scn place there);
      in_one = elim (Bool-cases (by_application e)) [
        | inl app ↦ by_offset-InOne offset p s.s_data (rw app at found)
        | inr no_app ↦ by_count-InOne offset 0 p s.s_data (rw no_app at found)
      ];
    })
search_data-PointsInto e e' place offset p old (err c, s) there h = ground (arith, h)
search_data-PointsInto e e' place offset p old (fault, s) there h = ground (arith, h)

in_section-PointsInto :
    (e e' : Elf) (place offset p : ℕ) (s : Scn) (host : Host) (r : Result Shdr)
    → get_elem? e.e_scn place ≡ some s
    → in_section e place s offset host r ≡ (ok p, e')
    → PointsInto place p e'
unfolding in_section
in_section-PointsInto e e' place offset p s host (ok sh) there h =
    elim (Bool-cases (not (sh.sh_type == sht_strtab) || leb sh.sh_size offset)) [
      | inl bad ↦ absurd (ground (arith, h, bad))
      | inr good ↦
          search_data-PointsInto e e' place offset p s (elf_getdata e s none host) there
            (rw good at h)
    ]
in_section-PointsInto e e' place offset p s host (err c) there h = ground (arith, h)
in_section-PointsInto e e' place offset p s host fault there h = ground (arith, h)

at_section-PointsInto :
    (e' : Elf) (offset p : ℕ) (host : Host) (r : Result ℕ × Elf)
    → at_section offset host r ≡ (ok p, e')
    → (place : ℕ) × PointsInto place p e'
unfolding at_section
at_section-PointsInto e' offset p host (ok place, e) h =
    elim (Option-cases (get_elem? e.e_scn place)) [
      | inl missing ↦ absurd (ground (arith, h, missing))
      | inr (s, there) ↦ (
        place,
        in_section-PointsInto e e' place offset p s host (gelf_getshdr e s true) there
            (rw (there, at_section) at h),
      )
    ]
at_section-PointsInto e' offset p host (err c, e) h = ground (arith, h)
at_section-PointsInto e' offset p host (fault, e) h = ground (arith, h)

-- Where `elf_strptr` succeeds, what it returns is the address of a byte in the buffer of one of the
-- data descriptors, of type ELF_T_BYTE, that a section of the object has after the call.
pub elf_strptr-PointsInto :
    (lib : Library) (e e' : Elf) (scndx offset p : ℕ) (a : Answers) (host : Host)
    → elf_strptr lib e scndx offset a host ≡ (ok p, e')
    → (place : ℕ) × PointsInto place p e'
unfolding elf_strptr
elf_strptr-PointsInto lib e e' scndx offset p a host h = elim (Bool-cases (is_elf e.e_kind)) [
  | inr no_elf ↦ absurd (ground (arith, h, no_elf))
  | inl elf ↦
      let steps : elf_strptr lib e scndx offset a host
          ≡ at_section offset host (elf_getscn lib e scndx a) =
        rw elf in
      at_section-PointsInto e' offset p host (elf_getscn lib e scndx a) (sym steps ∙ h)
]
