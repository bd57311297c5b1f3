-- ===== src/Update/Resync/Tables.antt =====
-- libelf/elf_update.c: how the header tables are laid out.
use mathlib.Core.List.Perm
use elftoolchain_libelf.Base.{
  ℕ, ◌+◌, ◌^◌, ◌≤◌, ◌<◌, ◌≡◌, refl, sym, ap, ◌⊎◌, inl, inr, true, false, some, List, [], ◌∷◌, ◌==◌,
  if◌then◌else◌, Bool-cases, arith,
}
use elftoolchain_libelf.Base.Outcome.{Result, ok, Malloc}
use elftoolchain_libelf.Format.Types.{
  ElfClass, class_32, class_64, class_none, t_phdr, t_shdr, ev_current,
}
use elftoolchain_libelf.Format.Size.{fsize}
use elftoolchain_libelf.Format.Align.{falign}
use elftoolchain_libelf.State.{Elf}
use elftoolchain_libelf.Update.Extent.{ElfExtent, Extent}
use elftoolchain_libelf.Update.Extent.Order.{new_extent}
use elftoolchain_libelf.Update.Image.{insert_extent-IsImage, insert_extent-perm}
use elftoolchain_libelf.Update.Section.{by_application}
use elftoolchain_libelf.Update.Sections.{Env}
use elftoolchain_libelf.Update.Sections.Layout.{Laid}
use elftoolchain_libelf.Update.Sync.{Sync, on_elf, insert, add_off, lt_off}
use elftoolchain_libelf.Update.Sync.Laws.{
  continue-ok, pure-ok, insert-ok, add_off-ok, roundup_off-ok,
}
use elftoolchain_libelf.Update.Resync.{phdr_offset, phdr_desc, sync_phdr, shdr_offset, sync_shdr}

-- A step that inserts one extent.
pub insert-Laid :
    (type : ElfExtent) (start size desc rc rc' : ℕ) (mem : Malloc) (s s' : Sync) {u : Unit {0}}
    → insert type start size desc mem s ≡ (ok u, s')
    → (start + size < 2 ^ 63 → (rc ≤ rc') × (start + size ≤ rc'))
    → Laid rc rc' (new_extent type start size desc ∷ []) s.extents s'.extents
insert-Laid type start size desc rc rc' mem s s' h covers =
    let (inserted, same) = insert-ok type start size desc mem s s' h in
    record {
      image =
          insert_extent-IsImage s.extents s'.extents type start size desc mem inserted rc rc'
            covers;
      perm = insert_extent-perm s.extents s'.extents type start size desc mem inserted;
    }

phdr_align : (ec : ElfClass) → (falign (some t_phdr) ec ≡ 4) ⊎ (falign (some t_phdr) ec ≡ 8)
unfolding falign
phdr_align class_none = inr refl
phdr_align class_32 = inl refl
phdr_align class_64 = inr refl

phdr_offset-ge :
    (e : Elf) (ec : ElfClass) (rc phoff off : ℕ)
    → rc < 2 ^ 63
    → phoff < 2 ^ 63
    → phdr_offset e ec rc phoff ≡ ok off
    → rc ≤ off
unfolding phdr_offset
phdr_offset-ge e ec rc phoff off hr hp h = elim (Bool-cases (by_application e)) [
  | inl app ↦ ground (arith, h, app)
  | inr no_app ↦ roundup_off-ok rc (falign (some t_phdr) ec) off (phdr_align ec) (rw no_app at h)
]

-- The extent of a program header table with `phnum` entries.
abbrev pub phdr_table : (ec : ElfClass) (phnum off desc : ℕ) → List Extent
phdr_table ec phnum off desc =
    if phnum == 0
    then []
    else new_extent ElfExtent.phdr off (fsize (some t_phdr) ec ev_current phnum).0 desc ∷ []

-- What a table step that succeeds has computed.
pub ok-pair :
    {A B : Type 0} (a a' : A) (b b' : B) (s s' : Sync)
    → ◌≡◌ {A = Result (A × B) × Sync} (ok (a, b), s) (ok (a', b'), s')
    → (a ≡ a') × (b ≡ b') × (s ≡ s')
ok-pair a a' b b' s s' h = ground (arith, h)

-- Both tables end in this way.
Laid-subst :
    (type : ElfExtent) (fsz desc rc : ℕ) (es : List Extent) (off off' end rc' : ℕ) (t s' : Sync)
    → (off ≡ off') × (end ≡ rc') × (t ≡ s')
    → Laid rc end (new_extent type off fsz desc ∷ []) es t.extents
    → Laid rc rc' (new_extent type off' fsz desc ∷ []) es s'.extents
Laid-subst type fsz desc rc es off off' end rc' t s' (same_off, same_rc, same) laid =
    rw (← same_off, ← same_rc, ← same) laid

module _ (a : Env) (ec : ElfClass) (phnum rc phoff : ℕ) (s s' : Sync) (off rc' : ℕ)
    (done : sync_phdr a ec phnum rc phoff s ≡ (ok (off, rc'), s')) where
  without-Laid : phnum == 0 ≡ true → Laid rc rc' [] s.extents s'.extents
  unfolding sync_phdr
  without-Laid without =
      let (zero_off, same_rc, same) = ok-pair 0 off rc rc' s s' (rw without at done) in
      rw (← same, ← same_rc) (record { image = λ i. i; perm = Perm.refl s.extents })

  table-Laid :
      rc < 2 ^ 63
      → phoff < 2 ^ 63
      → phnum == 0 ≡ false
      → (desc : ℕ) × Laid rc rc'
          (new_extent ElfExtent.phdr off (fsize (some t_phdr) ec ev_current phnum).0 desc ∷ [])
          s.extents
          s'.extents
  unfolding sync_phdr
  table-Laid hr hp with_table =
      let fsz = (fsize (some t_phdr) ec ev_current phnum).0 in
      let (off1, at_off, h1) =
        continue-ok (phdr_offset s.elf ec rc phoff, s) _ (rw with_table at done) in
      let (end, at_end, h2) = continue-ok (add_off off1 fsz, s) _ h1 in
      let (desc, at_desc, h3) = continue-ok (on_elf (phdr_desc a ec) s) _ h2 in
      let t = (on_elf (phdr_desc a ec) s).1 in
      let (u, at_insert, h4) =
        continue-ok (insert ElfExtent.phdr off1 fsz desc (a.header_extent ElfExtent.phdr) t) _ h3 in
      let t' = (insert ElfExtent.phdr off1 fsz desc (a.header_extent ElfExtent.phdr) t).1 in
      let above = phdr_offset-ge s.elf ec rc phoff off1 hr hp (pure-ok _ s at_off).0 in
      let laid =
        insert-Laid ElfExtent.phdr off1 fsz desc rc end (a.header_extent ElfExtent.phdr) t t'
          at_insert
          (λ fits.
            let e = add_off-ok off1 fsz end (pure-ok _ s at_end).0 fits in
            (omega arith, omega arith)) in
      (
        desc,
        Laid-subst ElfExtent.phdr fsz desc rc s.extents off1 off end rc' t' s'
            (ok-pair off1 off end rc' t' s' h4) laid,
      )

  pub sync_phdr-Laid :
      rc < 2 ^ 63
      → phoff < 2 ^ 63
      → (desc : ℕ) × Laid rc rc' (phdr_table ec phnum off desc) s.extents s'.extents
  sync_phdr-Laid hr hp = elim (Bool-cases (phnum == 0)) [
    | inl without ↦ (0, rw without (without-Laid without))
    | inr with_table ↦ let (desc, laid) = table-Laid hr hp with_table in (desc, rw with_table laid)
  ]

shdr_align : (ec : ElfClass) → (falign (some t_shdr) ec ≡ 4) ⊎ (falign (some t_shdr) ec ≡ 8)
unfolding falign
shdr_align class_none = inr refl
shdr_align class_32 = inl refl
shdr_align class_64 = inr refl

-- The extent of a section header table with `shnum` entries.
abbrev pub shdr_table : (ec : ElfClass) (shnum off : ℕ) → List Extent
shdr_table ec shnum off =
    if shnum == 0
    then []
    else new_extent ElfExtent.shdr off (fsize (some t_shdr) ec ev_current shnum).0 0 ∷ []

kept_elf : (s s' t : Sync) → t ≡ s' → t.elf ≡ s.elf → s'.elf ≡ s.elf
kept_elf s s' t same kept = rw (← same) kept

module _ (a : Env) (ec : ElfClass) (shnum rc shoff : ℕ) (s s' : Sync) (off rc' : ℕ)
    (done : sync_shdr a ec shnum rc shoff s ≡ (ok (off, rc'), s')) where
  no_shdr-Laid : shnum == 0 ≡ true → Laid rc rc' [] s.extents s'.extents
  unfolding sync_shdr
  no_shdr-Laid without =
      let (zero_off, same_rc, same) = ok-pair 0 off rc rc' s s' (rw without at done) in
      rw (← same, ← same_rc) (record { image = λ i. i; perm = Perm.refl s.extents })

  shdr-Laid :
      rc < 2 ^ 63
      → shnum == 0 ≡ false
      → Laid rc rc'
          (new_extent ElfExtent.shdr off (fsize (some t_shdr) ec ev_current shnum).0 0 ∷ [])
          s.extents
          s'.extents
  unfolding sync_shdr
  shdr-Laid hr with_table =
      let fsz = (fsize (some t_shdr) ec ev_current shnum).0 in
      let mem = a.header_extent ElfExtent.shdr in
      let (off1, at_off, h1) =
        continue-ok (shdr_offset s.elf ec rc shoff, s) _ (rw with_table at done) in
      let (end, at_end, h2) = continue-ok (add_off off1 fsz, s) _ h1 in
      let (u, at_insert, h3) = continue-ok (insert ElfExtent.shdr off1 fsz 0 mem s) _ h2 in
      let t' = (insert ElfExtent.shdr off1 fsz 0 mem s).1 in
      let rc1 = if lt_off rc end then end else rc in
      let laid = insert-Laid ElfExtent.shdr off1 fsz 0 rc rc1 mem s t' at_insert (λ fits.
        let e = add_off-ok off1 fsz end (pure-ok _ s at_end).0 fits in
        (ground arith, ground arith)) in
      Laid-subst ElfExtent.shdr fsz 0 rc s.extents off1 off rc1 rc' t' s'
        (ok-pair off1 off rc1 rc' t' s' h3) laid

  pub sync_shdr-Laid : rc < 2 ^ 63 → Laid rc rc' (shdr_table ec shnum off) s.extents s'.extents
  sync_shdr-Laid hr = elim (Bool-cases (shnum == 0)) [
    | inl without ↦ rw without (no_shdr-Laid without)
    | inr with_table ↦ rw with_table (shdr-Laid hr with_table)
  ]

  pub sync_shdr-elf : s'.elf ≡ s.elf
  unfolding sync_shdr
  sync_shdr-elf = elim (Bool-cases (shnum == 0)) [
    | inl without ↦
        let (zero_off, same_rc, same) = ok-pair 0 off rc rc' s s' (rw without at done) in
        ap (λ x. x.elf) (sym same)
    | inr with_table ↦
        let fsz = (fsize (some t_shdr) ec ev_current shnum).0 in
        let mem = a.header_extent ElfExtent.shdr in
        let (off1, at_off, h1) =
          continue-ok (shdr_offset s.elf ec rc shoff, s) _ (rw with_table at done) in
        let (end, at_end, h2) = continue-ok (add_off off1 fsz, s) _ h1 in
        let (u, at_insert, h3) = continue-ok (insert ElfExtent.shdr off1 fsz 0 mem s) _ h2 in
        let t' = (insert ElfExtent.shdr off1 fsz 0 mem s).1 in
        let (same_off, same_rc, same) =
          ok-pair off1 off (if lt_off rc end then end else rc) rc' t' s' h3 in
        kept_elf s s' t' same (insert-ok ElfExtent.shdr off1 fsz 0 mem s t' at_insert).1
  ]
