-- ===== src/Update/Resync/Layout.antt =====
-- libelf/elf_update.c: the layout that `_libelf_resync_elf` leaves.
use mathlib.Core.Path.{subst}
use mathlib.Core.List.{Perm, append-nil}
use elftoolchain_libelf.Base.{
  ℕ, ◌^◌, ◌<◌, ◌≡◌, sym, ap, ◌∙◌, List, [], ◌∷◌, ◌++◌, if◌then◌else◌, arith,
}
use elftoolchain_libelf.Base.Outcome.{ok, fault}
use elftoolchain_libelf.Format.Types.{ElfClass, class_32, class_64, class_none}
use elftoolchain_libelf.State.{has_class, Scn, Ehdr}
use elftoolchain_libelf.Numbering.Keeps.{SameNumbers}
use elftoolchain_libelf.Update.Extent.{ElfExtent, Extent}
use elftoolchain_libelf.Update.Extent.Order.{new_extent}
use elftoolchain_libelf.Update.Image.{Fits, EndsBy}
use elftoolchain_libelf.Update.Extent.Layout.{IsLaidOut}
use elftoolchain_libelf.Update.Sections.{Env}
use elftoolchain_libelf.Update.Sections.Layout.{Laid, Laid-trans, section_extents}
use elftoolchain_libelf.Update.Sync.{Sync}
use elftoolchain_libelf.Update.Sync.Laws.{continue-ok, pure-ok}
use elftoolchain_libelf.Update.Resync.{
  sync_phdr, sync_shdr, sync_sections, sync_ehdr, finish_ehdr, sync_all, resync_elf,
}
use elftoolchain_libelf.Update.Resync.Numbers.{
  sync_ehdr-present, sync_phdr-SameNumbers, sync_sections-SameNumbers, finish_ehdr-SameNumbers,
}
use elftoolchain_libelf.Header.Ehdr.Laws.{SameNumbers-trans}
use elftoolchain_libelf.Update.Resync.Tables.{
  phdr_table, shdr_table, sync_phdr-Laid, sync_shdr-Laid, sync_shdr-elf,
}
use elftoolchain_libelf.Update.Resync.Stored.{Located, finish_ehdr-Located}
use elftoolchain_libelf.Update.Resync.Parts.{
  sync_sections-Laid, ehdr_size, ehdr_size-lt, sync_ehdr-Laid, finish_ehdr-keeps, ok-eq,
}

-- The results of the steps of a run that succeeds.
record Steps (a : Env) (ec : ElfClass) (s s' : Sync) (size : ℕ) : Type 0 where
  eh : Ehdr
  rc : ℕ
  s1 : Sync
  at_ehdr : sync_ehdr a ec s ≡ (ok (eh, rc), s1)
  phoff : ℕ
  rc1 : ℕ
  s2 : Sync
  at_phdr : sync_phdr a ec s1.elf.e_nphdr rc eh.e_phoff s1 ≡ (ok (phoff, rc1), s2)
  rc2 : ℕ
  s3 : Sync
  at_sections : sync_sections a eh rc1 s2 ≡ (ok rc2, s3)
  shoff : ℕ
  s4 : Sync
  at_shdr : sync_shdr a ec s1.elf.e_nscn rc2 eh.e_shoff s3 ≡ (ok (shoff, size), s4)
  at_finish : finish_ehdr a ec eh s1.elf.e_nphdr s1.elf.e_nscn phoff shoff s4 ≡ (ok tt, s')

sync_all-Steps :
    (a : Env) (ec : ElfClass) (s s' : Sync) (size : ℕ)
    → sync_all a ec s ≡ (ok size, s')
    → Steps a ec s s' size
unfolding sync_all
sync_all-Steps a ec s s' size done =
    let (p, at_ehdr, h1) = continue-ok (sync_ehdr a ec s) _ done in
    let s1 = (sync_ehdr a ec s).1 in
    let (q, at_phdr, h2) = continue-ok (sync_phdr a ec s1.elf.e_nphdr p.1 p.0.e_phoff s1) _ h1 in
    let s2 = (sync_phdr a ec s1.elf.e_nphdr p.1 p.0.e_phoff s1).1 in
    let (rc2, at_sections, h3) = continue-ok (sync_sections a p.0 q.1 s2) _ h2 in
    let s3 = (sync_sections a p.0 q.1 s2).1 in
    let (r, at_shdr, h4) = continue-ok (sync_shdr a ec s1.elf.e_nscn rc2 p.0.e_shoff s3) _ h3 in
    let s4 = (sync_shdr a ec s1.elf.e_nscn rc2 p.0.e_shoff s3).1 in
    let finish = finish_ehdr a ec p.0 s1.elf.e_nphdr s1.elf.e_nscn q.0 r.0 s4 in
    let (u, at_finish, h5) = continue-ok finish _ h4 in
    let (same_rc, same_s) = pure-ok (ok r.1) finish.1 h5 in
    record {
      eh = p.0;
      rc = p.1;
      s1 = s1;
      at_ehdr = at_ehdr;
      phoff = q.0;
      rc1 = q.1;
      s2 = s2;
      at_phdr = at_phdr;
      rc2 = rc2;
      s3 = s3;
      at_sections = at_sections;
      shoff = r.0;
      s4 = s4;
      at_shdr = at_shdr ∙ ap (λ z. (ok (r.0, z), s4)) (ok-eq r.1 size same_rc);
      at_finish = at_finish ∙ ap (λ z. (ok tt, z)) same_s;
    }

-- The extents of an object: of its header, its tables, and its sections.
abbrev pub object_extents :
    (ec : ElfClass) (phnum shnum phoff shoff desc : ℕ) → List Scn → List Extent
object_extents ec phnum shnum phoff shoff desc ss =
    ((new_extent ElfExtent.ehdr 0 (ehdr_size ec) 1 ∷ phdr_table ec phnum phoff desc)
      ++ section_extents ss)
    ++ shdr_table ec shnum shoff

Steps-Laid :
    (a : Env) (ec : ElfClass) (s s' : Sync) (size : ℕ) (k : Steps a ec s s' size)
    → (desc : ℕ) × Laid 0 size
        (object_extents ec k.s1.elf.e_nphdr k.s1.elf.e_nscn k.phoff k.shoff desc s'.elf.e_scn)
        s.extents
        s'.extents
Steps-Laid a ec s s' size k =
    let (phoff_small, rc_size, laid1) = sync_ehdr-Laid a ec s k.s1 k.eh k.rc k.at_ehdr in
    let rc_small : k.rc < 2 ^ 63 = omega (arith, ehdr_size-lt ec) in
    let (desc, laid2) =
      sync_phdr-Laid a ec k.s1.elf.e_nphdr k.rc k.eh.e_phoff k.s1 k.s2 k.phoff k.rc1 k.at_phdr
        rc_small phoff_small in
    let (rc2_small, laid3) = sync_sections-Laid a k.eh k.rc1 k.rc2 k.s2 k.s3 k.at_sections in
    let laid4 =
      sync_shdr-Laid a ec k.s1.elf.e_nscn k.rc2 k.eh.e_shoff k.s3 k.s4 k.shoff size k.at_shdr
        rc2_small in
    let same_elf =
      sync_shdr-elf a ec k.s1.elf.e_nscn k.rc2 k.eh.e_shoff k.s3 k.s4 k.shoff size k.at_shdr in
    let (same_extents', same_sections) =
      finish_ehdr-keeps a ec k.eh k.s1.elf.e_nphdr k.s1.elf.e_nscn k.phoff k.shoff k.s4 s'
        k.at_finish in
    (
      desc,
      rw (same_extents', same_sections, same_elf)
          (Laid-trans 0 k.rc2 size
            ((new_extent ElfExtent.ehdr 0 (ehdr_size ec) 1
                ∷ phdr_table ec k.s1.elf.e_nphdr k.phoff desc)
              ++ section_extents k.s3.elf.e_scn)
            (shdr_table ec k.s1.elf.e_nscn k.shoff) s.extents k.s3.extents k.s4.extents
            (Laid-trans 0 k.rc1 k.rc2
              (new_extent ElfExtent.ehdr 0 (ehdr_size ec) 1
                ∷ phdr_table ec k.s1.elf.e_nphdr k.phoff desc)
              (section_extents k.s3.elf.e_scn) s.extents k.s2.extents k.s3.extents
              (Laid-trans 0 k.rc k.rc1 (new_extent ElfExtent.ehdr 0 (ehdr_size ec) 1 ∷ [])
                (phdr_table ec k.s1.elf.e_nphdr k.phoff desc) s.extents k.s1.extents k.s2.extents
                laid1 laid2)
              laid3)
            laid4),
    )

resync_elf-sync_all :
    (a : Env) (s s' : Sync) (size : ℕ)
    → resync_elf a s ≡ (ok size, s')
    → sync_all a s.elf.e_class s ≡ (ok size, s')
unfolding resync_elf
resync_elf-sync_all a s s' size h = by_class s.elf.e_class h
  where
    by_class :
        (ec : ElfClass)
        → (if has_class ec then sync_all a ec s else (fault, s)) ≡ (ok size, s')
        → sync_all a ec s ≡ (ok size, s')
    by_class class_none q = ground (arith, q)
    by_class class_32 q = q
    by_class class_64 q = q

perm_of_empty : (l new es : List Extent) → es ≡ [] → Perm l (new ++ es) → Perm l new
perm_of_empty l new es empty p =
    subst (λ x. Perm l x) (append-nil new) (subst (λ x. Perm l (new ++ x)) empty p)

Steps-SameNumbers :
    (a : Env) (ec : ElfClass) (s s' : Sync) (size : ℕ) (k : Steps a ec s s' size)
    → SameNumbers k.s1.elf s'.elf
Steps-SameNumbers a ec s s' size k =
    let (h, present) = sync_ehdr-present a ec s k.s1 k.eh k.rc k.at_ehdr in
    let p1 =
      sync_phdr-SameNumbers a ec k.s1.elf.e_nphdr k.rc k.eh.e_phoff k.s1 k.s2 k.phoff k.rc1
        k.at_phdr h present in
    let p2 = sync_sections-SameNumbers a k.eh k.rc1 k.rc2 k.s2 k.s3 k.at_sections in
    let kept =
      sync_shdr-elf a ec k.s1.elf.e_nscn k.rc2 k.eh.e_shoff k.s3 k.s4 k.shoff size k.at_shdr in
    let p3 =
      finish_ehdr-SameNumbers a ec k.eh k.s1.elf.e_nphdr k.s1.elf.e_nscn k.phoff k.shoff k.s4 s'
        k.at_finish in
    SameNumbers-trans k.s1.elf k.s2.elf s'.elf p1
      (SameNumbers-trans k.s2.elf k.s3.elf s'.elf p2 (rw kept at p3))

object_extents-perm :
    (l : List Extent) (ec : ElfClass) (phnum phnum' shnum shnum' phoff shoff desc : ℕ)
    (ss : List Scn)
    → phnum' ≡ phnum
    → shnum' ≡ shnum
    → Perm l (object_extents ec phnum shnum phoff shoff desc ss)
    → Perm l (object_extents ec phnum' shnum' phoff shoff desc ss)
object_extents-perm l ec phnum phnum' shnum shnum' phoff shoff desc ss e e' p =
    subst (λ n. Perm l (object_extents ec n shnum' phoff shoff desc ss)) (sym e)
      (subst (λ n. Perm l (object_extents ec phnum n phoff shoff desc ss)) (sym e') p)

-- Where `resync_elf` succeeds, from an empty list of extents, the list has up to order the extent of
-- the header, those of the two header tables for as many entries as the descriptor counts, and those
-- of exactly the sections that take space in the file; and unless the application does the layout, the
-- header of the object has the offsets of the tables, modulo 2 ^ 32 in a 32-bit object.
pub resync_elf-lays_out :
    (a : Env) (s s' : Sync) (size : ℕ)
    → s.extents ≡ []
    → resync_elf a s ≡ (ok size, s')
    → (phoff shoff desc : ℕ) × Perm s'.extents
        (object_extents s.elf.e_class s'.elf.e_nphdr s'.elf.e_nscn phoff shoff desc s'.elf.e_scn)
      × Located s.elf.e_class s'.elf phoff shoff
resync_elf-lays_out a s s' size empty done =
    let ec = s.elf.e_class in
    let k = sync_all-Steps a ec s s' size (resync_elf-sync_all a s s' size done) in
    let (desc, laid) = Steps-Laid a ec s s' size k in
    let same_numbers = Steps-SameNumbers a ec s s' size k in
    (
      k.phoff,
      k.shoff,
      desc,
      object_extents-perm s'.extents ec k.s1.elf.e_nphdr s'.elf.e_nphdr k.s1.elf.e_nscn
          s'.elf.e_nscn k.phoff k.shoff desc s'.elf.e_scn same_numbers.same_nphdr
          same_numbers.same_nscn (perm_of_empty s'.extents _ s.extents empty laid.perm),
      finish_ehdr-Located a ec k.eh k.s1.elf.e_nphdr k.s1.elf.e_nscn k.phoff k.shoff k.s4 s'
          k.at_finish,
    )

-- Where `resync_elf` succeeds, from an empty list of extents, and every extent that it leaves ends
-- below 2 ^ 63, as an off_t does, the extents are in ascending order, none overlaps another, and all
-- end at or before the size that is returned.
pub resync_elf-IsLaidOut :
    (a : Env) (s s' : Sync) (size : ℕ)
    → s.extents ≡ []
    → resync_elf a s ≡ (ok size, s')
    → Fits s'.extents
    → IsLaidOut 0 s'.extents × EndsBy size s'.extents
resync_elf-IsLaidOut a s s' size empty done fits =
    let ec = s.elf.e_class in
    let k = sync_all-Steps a ec s s' size (resync_elf-sync_all a s s' size done) in
    let (desc, laid) = Steps-Laid a ec s s' size k in
    let image = laid.image (rw empty (record { laid_out = λ f. tt; ends = λ f. tt })) in
    (image.laid_out fits, image.ends fits)
