-- ===== src/Update/Sections/Layout.antt =====
-- libelf/elf_update.c: after `_libelf_resync_sections` the list of extents has exactly the sections
-- that take space in the file.
use mathlib.Core.List.{Perm, perm_append_comm, append_assoc}
use mathlib.Core.List.Perm
use mathlib.Core.Path.{subst}
use elftoolchain_libelf.Base.{
  ℕ, ◌≡◌, refl, ap, ◌∙◌, inl, inr, true, false, ◌||◌, List, [], ◌∷◌, ◌++◌, ltb, ◌==◌, if◌then◌else◌,
  Bool-cases, arith,
}
use elftoolchain_libelf.Base.Outcome.{Result, ok, err, fault}
use elftoolchain_libelf.State.{Elf, Scn}
use elftoolchain_libelf.Update.Extent.{ElfExtent, Extent, add64, insert_extent}
use elftoolchain_libelf.Update.Extent.Order.{new_extent}
use elftoolchain_libelf.Update.Image.{IsImage, insert_extent-IsImage, insert_extent-perm}
use elftoolchain_libelf.Update.Section.{compute_section_extents}
use elftoolchain_libelf.Update.Section.Keeps.{Keeps, compute_section_extents-Keeps}
use elftoolchain_libelf.Update.Sections.{
  Env, scn_desc, is_skipped, insert_section, resync_section, resync_sections,
}

-- The extents of the sections that take space in the file: those that are neither SHT_NULL nor
-- SHT_NOBITS, and are not empty.
unfoldable pub section_extents : List Scn → List Extent
section_extents [] = []
section_extents (s ∷ ss) =
    let rest = section_extents ss in
    if is_skipped s || (s.s_size == 0)
    then rest
    else new_extent ElfExtent.section s.s_offset s.s_size (scn_desc s) ∷ rest

-- What a step that succeeds does to what is laid out, `rc`, and to the list of extents.
pub record Laid (rc rc' : ℕ) (new es es' : List Extent) : Type 0 where
  pub image : IsImage rc es → IsImage rc' es'
  pub perm : Perm es' (new ++ es)

abbrev scn_end : Scn → ℕ
scn_end s = add64 s.s_offset s.s_size

module _ (a : Env) (rc rc' : ℕ) (es es' : List Extent) (s : Scn) where
  insert_section-empty :
      s.s_size == 0 ≡ true
      → insert_section a rc es s (ok tt) ≡ ok (rc', es')
      → (rc' ≡ rc) × (es' ≡ es)
  unfolding insert_section
  insert_section-empty empty h = ground arith

  insert_section-full :
      s.s_size == 0 ≡ false
      → insert_section a rc es s (ok tt) ≡ ok (rc', es')
      → (insert_extent es ElfExtent.section s.s_offset s.s_size (scn_desc s) (a.scn_extent s.s_ndx)
          ≡ ok es')
        × (rc' ≡ (if ltb rc (scn_end s) then scn_end s else rc))
  unfolding insert_section
  insert_section-full full h = ground arith

  insert_section-Laid :
      is_skipped s ≡ false
      → insert_section a rc es s (ok tt) ≡ ok (rc', es')
      → Laid rc rc' (section_extents (s ∷ [])) es es'
  unfolding section_extents
  insert_section-Laid there h = elim (Bool-cases (s.s_size == 0)) [
    | inl empty ↦
        let (same_rc, same_es) = insert_section-empty empty h in
        rw (same_rc, same_es, there, empty) (record { image = λ i. i; perm = Perm.refl es })
    | inr full ↦
        let (inserted, end) = insert_section-full full h in
        rw (there, full)
          (record {
            image =
                insert_extent-IsImage es es' ElfExtent.section s.s_offset s.s_size (scn_desc s)
                  (a.scn_extent s.s_ndx) inserted rc rc' (λ fits. (ground arith, ground arith));
            perm =
                insert_extent-perm es es' ElfExtent.section s.s_offset s.s_size (scn_desc s)
                  (a.scn_extent s.s_ndx) inserted;
          })
  ]

  insert_section-ok :
      (r : Result (Unit {0})) → insert_section a rc es s r ≡ ok (rc', es') → r ≡ ok tt
  unfolding insert_section
  insert_section-ok (ok u) h = refl
  insert_section-ok (err c) h = ground arith
  insert_section-ok fault h = ground arith

  -- A section that is passed over.
  skipped-Laid :
      is_skipped s ≡ true → rc' ≡ rc → es' ≡ es → Laid rc rc' (section_extents (s ∷ [])) es es'
  unfolding section_extents
  skipped-Laid skipped same_rc same_es =
      rw (same_rc, same_es, skipped) (record { image = λ i. i; perm = Perm.refl es })

-- The class of a section that takes no space does not change under the computation of its extent.
is_skipped-Keeps :
    (s : Scn) (r : Result (Unit {0}) × Scn) → Keeps s r → is_skipped r.1 ≡ is_skipped s
is_skipped-Keeps s r k = rw (k.same_type)

resync_section-Laid :
    (a : Env) (e : Elf) (rc rc' : ℕ) (es es' : List Extent) (s s' : Scn)
    → resync_section a e rc es s ≡ (ok (rc', es'), s')
    → Laid rc rc' (section_extents (s' ∷ [])) es es'
unfolding resync_section
resync_section-Laid a e rc rc' es es' s s' h = elim (Bool-cases (is_skipped s)) [
  | inl skipped ↦
      let same : s ≡ s' = ground (arith, h, skipped) in
      skipped-Laid a rc rc' es es' s' (rw (← same) skipped) (ground (arith, h, skipped))
        (ground (arith, h, skipped))
  | inr there ↦
      let r = compute_section_extents e s rc (a.host s.s_ndx) in
      let same : r.1 ≡ s' = ground (arith, h, there) in
      let inserted : insert_section a rc es r.1 r.0 ≡ ok (rc', es') = ground (arith, h, there) in
      let computed = insert_section-ok a rc rc' es es' r.1 r.0 inserted in
      rw (← same) (
        insert_section-Laid a rc rc' es es' r.1
          (is_skipped-Keeps s r (compute_section_extents-Keeps e s rc (a.host s.s_ndx)) ∙ there)
          (rw computed at inserted))
]

pub section_extents-cons :
    (s : Scn) (ss : List Scn)
    → section_extents (s ∷ ss) ≡ section_extents (s ∷ []) ++ section_extents ss
unfolding section_extents
section_extents-cons s ss = elim (Bool-cases (is_skipped s || (s.s_size == 0))) [
  | inl none_here ↦ rw none_here
  | inr here ↦ rw here
]

pub Laid-trans :
    (rc rc1 rc2 : ℕ) (new1 new2 es es1 es2 : List Extent)
    → Laid rc rc1 new1 es es1
    → Laid rc1 rc2 new2 es1 es2
    → Laid rc rc2 (new1 ++ new2) es es2
Laid-trans rc rc1 rc2 new1 new2 es es1 es2 p q = record {
  image = λ i. q.image (p.image i);
  perm = Perm.trans q.perm (
      Perm.trans (Perm.append_left new2 p.perm) (
        subst (λ l. Perm l ((new1 ++ new2) ++ es)) (append_assoc new2 new1 es)
          (Perm.append_right es (perm_append_comm new2 new1))));
}

-- The loop goes on behind a section that is laid out.
resync_sections-cons :
    (a : Env) (e : Elf) (rc : ℕ) (es : List Extent) (s : Scn) (ss ss2 : List Scn) (rc2 : ℕ)
    (es2 : List Extent)
    → resync_sections a e rc es (s ∷ ss) ≡ (ok (rc2, es2), ss2)
    → (rc1 : ℕ) × (es1 : List Extent) × (s' : Scn) × (ss' : List Scn) × (resync_section a e rc es s
        ≡ (ok (rc1, es1), s'))
      × (resync_sections a e rc1 es1 ss ≡ (ok (rc2, es2), ss'))
      × (ss2 ≡ s' ∷ ss')
unfolding resync_sections
resync_sections-cons a e rc es s ss ss2 rc2 es2 h = step (resync_section a e rc es s).0 refl
  where
    step :
        (r : Result (ℕ × List Extent))
        → (resync_section a e rc es s).0 ≡ r
        → (rc1 : ℕ) × (es1 : List Extent) × (s' : Scn) × (ss' : List Scn) × (resync_section a e rc
              es s
            ≡ (ok (rc1, es1), s'))
          × (resync_sections a e rc1 es1 ss ≡ (ok (rc2, es2), ss'))
          × (ss2 ≡ s' ∷ ss')
    step (ok (rc1, es1)) q = (
      rc1,
      es1,
      (resync_section a e rc es s).1,
      (resync_sections a e rc1 es1 ss).1,
      ground (arith, q),
      ground (arith, h, q),
      ground (arith, h, q),
    )
    step (err c) q = ground (arith, h, q)
    step fault q = ground (arith, h, q)

-- After a success, the list of extents is the old one and, up to order, the extents of the sections
-- that take space in the file.
pub resync_sections-Laid :
    (a : Env) (e : Elf) (ss ss2 : List Scn) (rc rc2 : ℕ) (es es2 : List Extent)
    → resync_sections a e rc es ss ≡ (ok (rc2, es2), ss2)
    → Laid rc rc2 (section_extents ss2) es es2
unfolding resync_sections section_extents
resync_sections-Laid a e [] ss2 rc rc2 es es2 h =
    let same_ss : [] ≡ ss2 = ap (λ r. r.1) h in
    let same_rc : rc2 ≡ rc = ground (arith, h) in
    let same_es : es2 ≡ es = ground (arith, h) in
    rw (← same_ss, same_rc, same_es) (record { image = λ i. i; perm = Perm.refl es })
resync_sections-Laid a e (s ∷ ss) ss2 rc rc2 es es2 h =
    let (rc1, es1, s', ss', here, there, joined) =
      resync_sections-cons a e rc es s ss ss2 rc2 es2 h in
    rw joined (
      rw (section_extents-cons s' ss') (
        Laid-trans rc rc1 rc2 (section_extents (s' ∷ [])) (section_extents ss') es es1 es2
          (resync_section-Laid a e rc rc1 es es1 s s' here)
          (resync_sections-Laid a e ss ss' rc1 rc2 es1 es2 there)))
