-- ===== src/Update/Resync/Parts.antt =====
-- libelf/elf_update.c: what the parts of `_libelf_resync_elf` add to the list of extents.
use elftoolchain_libelf.Base.{
  ℕ, ◌^◌, ◌<◌, ◌≡◌, refl, sym, ap, ◌∙◌, inl, inr, false, some, List, [], ◌∷◌, Bool-cases, arith,
}
use elftoolchain_libelf.Base.Outcome.{Result, ok, err, fault}
use elftoolchain_libelf.Format.Types.{ElfClass, class_32, class_64, class_none, t_ehdr, ev_current}
use elftoolchain_libelf.Format.Size.{fsize, file_size}
use elftoolchain_libelf.State.{Elf, Scn, Ehdr}
use elftoolchain_libelf.Numbering.{setphnum, setshnum}
use elftoolchain_libelf.Numbering.Keeps.{
  SamePlace, Keeps, same, first, added, setphnum-Keeps, setshnum-Keeps,
}
use elftoolchain_libelf.Header.Ehdr.{ehdr}
use elftoolchain_libelf.Section.Table.{want_headers}
use elftoolchain_libelf.Update.Extent.{ElfExtent, Extent}
use elftoolchain_libelf.Update.Extent.Order.{new_extent}
use elftoolchain_libelf.Update.Sections.{Env, resync_sections}
use elftoolchain_libelf.Update.Sections.Layout.{Laid, section_extents, resync_sections-Laid}
use elftoolchain_libelf.Update.Sync.{Sync, on_elf, insert, is_negative}
use elftoolchain_libelf.Update.Sync.Laws.{continue-ok, pure-ok}
use elftoolchain_libelf.Update.Resync.{
  initialize_ehdr, check_header, set_header, walked, sync_walk, sync_sections, sync_ehdr, ignored,
  finish_ehdr,
}
use elftoolchain_libelf.Update.Resync.Tables.{insert-Laid, ok-pair}

walked-Laid :
    (a : Env) (e : Elf) (rc rc' : ℕ) (s s' : Sync) (r : Result (ℕ × List Extent) × List Scn)
    → resync_sections a e rc s.extents e.e_scn ≡ r
    → walked s r ≡ (ok rc', s')
    → (rc' < 2 ^ 63) × Laid rc rc' (section_extents s'.elf.e_scn) s.extents s'.extents
unfolding walked
walked-Laid a e rc rc' s s' (ok (rc1, es), scns) q h = elim (Bool-cases (is_negative rc1)) [
  | inl negative ↦ ground (arith, h, negative)
  | inr fine ↦
      let same_rc : rc1 ≡ rc' = ground (arith, h, fine) in
      let same : record { elf = record s.elf { e_scn = scns }; extents = es } ≡ s' =
        ap (λ p. p.1) h in
      rw (← same, ← same_rc)
        (ground arith, resync_sections-Laid a e e.e_scn scns rc rc1 s.extents es q)
]
walked-Laid a e rc rc' s s' (err c, scns) q h = ground (arith, h)
walked-Laid a e rc rc' s s' (fault, scns) q h = ground (arith, h)

pub sync_sections-Laid :
    (a : Env) (eh : Ehdr) (rc rc' : ℕ) (s s' : Sync)
    → sync_sections a eh rc s ≡ (ok rc', s')
    → (rc' < 2 ^ 63) × Laid rc rc' (section_extents s'.elf.e_scn) s.extents s'.extents
unfolding sync_sections sync_walk
sync_sections-Laid a eh rc rc' s s' done =
    let load = on_elf (λ e. want_headers a.lib a.scn_mem (ok eh, e)) s in
    let (u, loaded, h) = continue-ok load _ done in
    walked-Laid a load.1.elf rc rc' load.1 s'
      (resync_sections a load.1.elf rc load.1.extents load.1.elf.e_scn) refl h

-- The size of the header in the file.
abbrev pub ehdr_size : ElfClass → ℕ
ehdr_size ec = (fsize (some t_ehdr) ec ev_current 1).0

pub ehdr_size-lt : (ec : ElfClass) → ehdr_size ec < 2 ^ 63
unfolding fsize file_size
ehdr_size-lt class_none = omega arith
ehdr_size-lt class_32 = omega arith
ehdr_size-lt class_64 = omega arith

check_header-ok : (e : Elf) (eh : Ehdr) → check_header e eh ≡ ok tt → eh.e_phoff < 2 ^ 63
unfolding check_header
check_header-ok e eh h = ground (arith, h)

pub sync_ehdr-Laid :
    (a : Env) (ec : ElfClass) (s s' : Sync) (eh : Ehdr) (rc : ℕ)
    → sync_ehdr a ec s ≡ (ok (eh, rc), s')
    → (eh.e_phoff < 2 ^ 63)
      × (rc ≡ ehdr_size ec)
      × Laid 0 rc (new_extent ElfExtent.ehdr 0 (ehdr_size ec) 1 ∷ []) s.extents s'.extents
unfolding sync_ehdr initialize_ehdr
sync_ehdr-Laid a ec s s' eh rc done =
    let got = on_elf (λ e. ehdr a.lib e ec false a.ehdr_mem a.scn0_mem) s in
    let (eh1, found, h1) = continue-ok got _ done in
    let e = got.1.elf in
    let (u, checked, h2) = continue-ok (check_header e eh1, got.1) _ h1 in
    let t : Sync = record got.1 { elf = set_header ec eh1 e } in
    let mem = a.header_extent ElfExtent.ehdr in
    let (v, at_insert, h3) = continue-ok (insert ElfExtent.ehdr 0 (ehdr_size ec) 1 mem t) _ h2 in
    let t' = (insert ElfExtent.ehdr 0 (ehdr_size ec) 1 mem t).1 in
    let (same_eh, same_rc, same_s) =
      ok-pair (initialize_ehdr ec e.e_nphdr eh1) eh (ehdr_size ec) rc t' s' h3 in
    let bound : eh1.e_phoff < 2 ^ 63 = check_header-ok e eh1 (pure-ok _ got.1 checked).0 in
    (
      rw (← same_eh) bound,
      sym same_rc,
      rw (← same_rc, ← same_s)
          (insert-Laid ElfExtent.ehdr 0 (ehdr_size ec) 1 0 (ehdr_size ec) mem t t' at_insert
            (λ fits. (omega arith, omega arith))),
    )

pub same_extents :
    (s s' : Scn) (rest : List Scn)
    → SamePlace s s'
    → section_extents (s' ∷ rest) ≡ section_extents (s ∷ rest)
unfolding section_extents
same_extents s s' rest p = rw (p.same_type, p.same_ndx, p.same_offset, p.same_size)

-- The numbers in section 0 do not matter to the layout.
Keeps-section_extents :
    (ss ss' : List Scn) → Keeps ss ss' → section_extents ss' ≡ section_extents ss
unfolding section_extents
Keeps-section_extents ss ss' (same e) = rw e
Keeps-section_extents ss ss' (first s s' rest e e' p) = rw (e, e') (same_extents s s' rest p)
Keeps-section_extents ss ss' (added s' e e' p) = rw (e, e', p)

-- A call whose result is ignored.
ignored-scn : (r : Result (Unit {0}) × Elf × Ehdr) → (ignored r).1 ≡ r.1
unfolding ignored
ignored-scn (ok u, e, eh) = refl
ignored-scn (err c, e, eh) = refl
ignored-scn (fault, e, eh) = refl

ignored-section_extents :
    (e : Elf) (r : Result (Unit {0}) × Elf × Ehdr)
    → Keeps e.e_scn r.1.e_scn
    → section_extents (ignored r).1.e_scn ≡ section_extents e.e_scn
ignored-section_extents e r k =
    ap (λ x. section_extents x.e_scn) (ignored-scn r) ∙ Keeps-section_extents e.e_scn r.1.e_scn k

pub finish_ehdr-keeps :
    (a : Env) (ec : ElfClass) (eh : Ehdr) (phnum shnum phoff shoff : ℕ) (s s' : Sync) {u : Unit {0}}
    → finish_ehdr a ec eh phnum shnum phoff shoff s ≡ (ok u, s')
    → (s'.extents ≡ s.extents) × (section_extents s'.elf.e_scn ≡ section_extents s.elf.e_scn)
unfolding finish_ehdr
finish_ehdr-keeps a ec eh phnum shnum phoff shoff s s' done =
    let t = on_elf (λ e. ignored (setphnum e eh ec phnum a.phnum_mem)) s in
    let (eh1, at_phnum, h1) = continue-ok t _ done in
    let t' = on_elf (λ e. ignored (setshnum e eh1 ec shnum a.shnum_mem)) t.1 in
    let (eh2, at_shnum, h2) = continue-ok t' _ h1 in
    (
      sym (ap (λ p. (p.1).extents) h2),
      sym (ap (λ p. section_extents (p.1).elf.e_scn) h2)
          ∙ ignored-section_extents t.1.elf (setshnum t.1.elf eh1 ec shnum a.shnum_mem)
              (setshnum-Keeps t.1.elf eh1 ec shnum a.shnum_mem)
          ∙ ignored-section_extents s.elf (setphnum s.elf eh ec phnum a.phnum_mem)
              (setphnum-Keeps s.elf eh ec phnum a.phnum_mem),
    )

pub ok-eq : {A : Type 0} (a b : A) → ok a ≡ ok b → a ≡ b
ok-eq a b h = cc
