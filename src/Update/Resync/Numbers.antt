-- ===== src/Update/Resync/Numbers.antt =====
-- libelf/elf_update.c: `_libelf_resync_elf` keeps the numbers of headers and of sections from the place
-- on where it has the header.
use elftoolchain_libelf.Base.{
  ℕ, ◌≡◌, refl, sym, ap, ◌∙◌, inl, inr, false, some, List, ◌==◌, Bool-cases, arith,
}
use elftoolchain_libelf.Base.Outcome.{Result, ok, err, fault}
use elftoolchain_libelf.Format.Types.{ElfClass, t_ehdr, t_phdr, ev_current}
use elftoolchain_libelf.Format.Size.{fsize}
use elftoolchain_libelf.State.{Elf, Scn, Ehdr}
use elftoolchain_libelf.Flag.{elf_flagehdr}
use elftoolchain_libelf.Numbering.{setphnum, setshnum}
use elftoolchain_libelf.Numbering.Keeps.{SameNumbers, setphnum-SameNumbers, setshnum-SameNumbers}
use elftoolchain_libelf.Header.Ehdr.{ehdr, flag_ehdr}
use elftoolchain_libelf.Header.Ehdr.Laws.{SameNumbers-trans}
use elftoolchain_libelf.Header.Phdr.Laws.{getphdr-SameNumbers}
use elftoolchain_libelf.Section.Table.{want_headers}
use elftoolchain_libelf.Section.Table.Numbers.{want_headers-SameNumbers}
use elftoolchain_libelf.Update.Extent.{ElfExtent, Extent}
use elftoolchain_libelf.Update.Sections.{Env, resync_sections}
use elftoolchain_libelf.Update.Sync.{Sync, on_elf, insert, add_off}
use elftoolchain_libelf.Update.Sync.Laws.{continue-ok, insert-ok}
use elftoolchain_libelf.Update.Resync.{
  initialize_ehdr, check_header, set_header, phdr_offset, phdr_desc, sync_phdr, walked, sync_walk,
  sync_sections, sync_ehdr, ignored, finish_ehdr,
}
use elftoolchain_libelf.Update.Resync.Tables.{ok-pair}

stays : (e : Elf) → SameNumbers e e
stays e = record { same_nphdr = refl; same_nscn = refl }

flag_ehdr-keeps : (e : Elf) → (flag_ehdr e).e_ehdr ≡ e.e_ehdr
unfolding flag_ehdr elf_flagehdr
flag_ehdr-keeps e = ground arith

set_header-e_ehdr :
    (ec : ElfClass) (eh : Ehdr) (e : Elf)
    → (set_header ec eh e).e_ehdr ≡ some (initialize_ehdr ec e.e_nphdr eh)
unfolding set_header
set_header-e_ehdr ec eh e =
    flag_ehdr-keeps
      (record e { e_byteorder = eh.ei_data; e_ehdr = some (initialize_ehdr ec e.e_nphdr eh) })

-- The header is in the descriptor once its extent is laid out.
pub sync_ehdr-present :
    (a : Env) (ec : ElfClass) (s s' : Sync) (eh : Ehdr) (rc : ℕ)
    → sync_ehdr a ec s ≡ (ok (eh, rc), s')
    → (h : Ehdr) × (s'.elf.e_ehdr ≡ some h)
unfolding sync_ehdr
sync_ehdr-present a ec s s' eh rc done =
    let got = on_elf (λ e. ehdr a.lib e ec false a.ehdr_mem a.scn0_mem) s in
    let (eh1, found, h1) = continue-ok got _ done in
    let e = got.1.elf in
    let (u, checked, h2) = continue-ok (check_header e eh1, got.1) _ h1 in
    let t : Sync = record got.1 { elf = set_header ec eh1 e } in
    let size = (fsize (some t_ehdr) ec ev_current 1).0 in
    let mem = a.header_extent ElfExtent.ehdr in
    let (v, at_insert, h3) = continue-ok (insert ElfExtent.ehdr 0 size 1 mem t) _ h2 in
    let t' = (insert ElfExtent.ehdr 0 size 1 mem t).1 in
    let (same_eh, same_rc, same) = ok-pair (initialize_ehdr ec e.e_nphdr eh1) eh size rc t' s' h3 in
    let kept = (insert-ok ElfExtent.ehdr 0 size 1 mem t t' at_insert).1 in
    (
      initialize_ehdr ec e.e_nphdr eh1,
      ap (λ x. x.elf.e_ehdr) (sym same) ∙ ap (λ x. x.e_ehdr) kept ∙ set_header-e_ehdr ec eh1 e,
    )

phdr_desc-SameNumbers :
    (a : Env) (ec : ElfClass) (e : Elf) (h : Ehdr)
    → e.e_ehdr ≡ some h
    → SameNumbers e (phdr_desc a ec e).1
unfolding phdr_desc
phdr_desc-SameNumbers a ec e h present =
    getphdr-SameNumbers a.lib e a.ehdr_mem a.scn0_mem a.phdr_mem h present ec

-- The numbers are those of the state that an insertion leaves.
SameNumbers-subst :
    (e : Elf) (t t' s' : Sync)
    → SameNumbers e t.elf
    → t'.elf ≡ t.elf
    → t' ≡ s'
    → SameNumbers e s'.elf
SameNumbers-subst e t t' s' p kept same = rw (← same, kept) p

module _ (a : Env) (ec : ElfClass) (phnum rc phoff : ℕ) (s s' : Sync) (off rc' : ℕ)
    (done : sync_phdr a ec phnum rc phoff s ≡ (ok (off, rc'), s')) where
  pub sync_phdr-SameNumbers : (h : Ehdr) → s.elf.e_ehdr ≡ some h → SameNumbers s.elf s'.elf
  unfolding sync_phdr
  sync_phdr-SameNumbers h present = elim (Bool-cases (phnum == 0)) [
    | inl without ↦
        let (zero_off, same_rc, same) = ok-pair 0 off rc rc' s s' (rw without at done) in
        SameNumbers-subst s.elf s s s' (stays s.elf) refl same
    | inr with_table ↦
        let fsz = (fsize (some t_phdr) ec ev_current phnum).0 in
        let mem = a.header_extent ElfExtent.phdr in
        let (off1, at_off, h1) =
          continue-ok (phdr_offset s.elf ec rc phoff, s) _ (rw with_table at done) in
        let (end, at_end, h2) = continue-ok (add_off off1 fsz, s) _ h1 in
        let (desc, at_desc, h3) = continue-ok (on_elf (phdr_desc a ec) s) _ h2 in
        let t = (on_elf (phdr_desc a ec) s).1 in
        let (u, at_insert, h4) = continue-ok (insert ElfExtent.phdr off1 fsz desc mem t) _ h3 in
        let t' = (insert ElfExtent.phdr off1 fsz desc mem t).1 in
        let (same_off, same_rc, same) = ok-pair off1 off end rc' t' s' h4 in
        SameNumbers-subst s.elf t t' s' (phdr_desc-SameNumbers a ec s.elf h present)
          (insert-ok ElfExtent.phdr off1 fsz desc mem t t' at_insert).1 same
  ]

walked-SameNumbers :
    (s : Sync) (r : Result (ℕ × List Extent)) (scns : List Scn)
    → SameNumbers s.elf (walked s (r, scns)).1.elf
unfolding walked
walked-SameNumbers s (ok (rc, es)) scns = record { same_nphdr = refl; same_nscn = refl }
walked-SameNumbers s (err c) scns = record { same_nphdr = refl; same_nscn = refl }
walked-SameNumbers s fault scns = record { same_nphdr = refl; same_nscn = refl }

pub sync_sections-SameNumbers :
    (a : Env) (eh : Ehdr) (rc rc' : ℕ) (s s' : Sync)
    → sync_sections a eh rc s ≡ (ok rc', s')
    → SameNumbers s.elf s'.elf
unfolding sync_sections sync_walk
sync_sections-SameNumbers a eh rc rc' s s' done =
    let load = on_elf (λ e. want_headers a.lib a.scn_mem (ok eh, e)) s in
    let (u, loaded, h) = continue-ok load _ done in
    let e = load.1.elf in
    let (r, scns) = resync_sections a e rc load.1.extents e.e_scn in
    SameNumbers-trans s.elf e s'.elf (want_headers-SameNumbers a.lib a.scn_mem eh s.elf) (
      SameNumbers-subst e (walked load.1 (r, scns)).1 (walked load.1 (r, scns)).1 s'
        (walked-SameNumbers load.1 r scns) refl (ap (λ p. p.1) h))

ignored-SameNumbers :
    (e : Elf) (r : Result (Unit {0})) (e' : Elf) (eh : Ehdr)
    → SameNumbers e e'
    → SameNumbers e (ignored (r, e', eh)).1
unfolding ignored
ignored-SameNumbers e (ok u) e' eh k = k
ignored-SameNumbers e (err c) e' eh k = k
ignored-SameNumbers e fault e' eh k = k

pub finish_ehdr-SameNumbers :
    (a : Env) (ec : ElfClass) (eh : Ehdr) (phnum shnum phoff shoff : ℕ) (s s' : Sync) {u : Unit {0}}
    → finish_ehdr a ec eh phnum shnum phoff shoff s ≡ (ok u, s')
    → SameNumbers s.elf s'.elf
unfolding finish_ehdr
finish_ehdr-SameNumbers a ec eh phnum shnum phoff shoff s s' done =
    let set_ph = setphnum s.elf eh ec phnum a.phnum_mem in
    let t = on_elf (λ e. ignored (setphnum e eh ec phnum a.phnum_mem)) s in
    let (eh1, at_phnum, h1) = continue-ok t _ done in
    let set_sh = setshnum t.1.elf eh1 ec shnum a.shnum_mem in
    let t' = on_elf (λ e. ignored (setshnum e eh1 ec shnum a.shnum_mem)) t.1 in
    let (eh2, at_shnum, h2) = continue-ok t' _ h1 in
    let p =
      ignored-SameNumbers s.elf set_ph.0 set_ph.1 set_ph.2
        (setphnum-SameNumbers s.elf eh ec phnum a.phnum_mem) in
    let q =
      ignored-SameNumbers t.1.elf set_sh.0 set_sh.1 set_sh.2
        (setshnum-SameNumbers t.1.elf eh1 ec shnum a.shnum_mem) in
    let both = SameNumbers-trans s.elf t.1.elf t'.1.elf p q in
    record {
      same_nphdr = sym (ap (λ x. (x.1).elf.e_nphdr) h2) ∙ both.same_nphdr;
      same_nscn = sym (ap (λ x. (x.1).elf.e_nscn) h2) ∙ both.same_nscn;
    }
