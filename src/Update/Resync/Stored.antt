-- ===== src/Update/Resync/Stored.antt =====
-- libelf/elf_update.c: the offsets of the header tables that `_libelf_resync_elf` stores in the header.
use elftoolchain_libelf.Base.{
  ℕ, ◌%◌, ◌^◌, ◌≡◌, ◌⊎◌, refl, ap, inl, inr, true, some, if◌then◌else◌, Bool-cases,
}
use elftoolchain_libelf.Base.Outcome.{ok}
use elftoolchain_libelf.Format.Types.{ElfClass, class_none, class_32, class_64}
use elftoolchain_libelf.State.{Elf, Ehdr}
use elftoolchain_libelf.Numbering.{setphnum, setshnum}
use elftoolchain_libelf.Update.Section.{by_application}
use elftoolchain_libelf.Update.Sections.{Env}
use elftoolchain_libelf.Update.Sync.{Sync, on_elf}
use elftoolchain_libelf.Update.Sync.Laws.{continue-ok}
use elftoolchain_libelf.Update.Resync.{ignored, store_offsets, finish_ehdr}

-- What fits the member of the header.
abbrev pub narrow : ElfClass → ℕ → ℕ
narrow class_32 n = n % 2 ^ 32
narrow ec n = n

-- The header of the object has these offsets, unless the application does the layout.
pub record Located (ec : ElfClass) (e : Elf) (phoff shoff : ℕ) : Type 0 where
  pub header : Ehdr
  pub present : e.e_ehdr ≡ some header
  pub offsets :
      (by_application e ≡ true)
      ⊎ ((header.e_phoff ≡ narrow ec phoff) × (header.e_shoff ≡ narrow ec shoff))

store_offsets-narrow :
    (ec : ElfClass) (phoff shoff : ℕ) (eh : Ehdr)
    → ((store_offsets ec phoff shoff eh).e_phoff ≡ narrow ec phoff)
      × ((store_offsets ec phoff shoff eh).e_shoff ≡ narrow ec shoff)
unfolding store_offsets
store_offsets-narrow class_none phoff shoff eh = (refl, refl)
store_offsets-narrow class_32 phoff shoff eh = (refl, refl)
store_offsets-narrow class_64 phoff shoff eh = (refl, refl)

put_offsets :
    (ec : ElfClass) (phoff shoff : ℕ) (eh : Ehdr) (e : Elf)
    → Located ec
        (record e {
          e_ehdr = some (if by_application e then eh else store_offsets ec phoff shoff eh);
        })
        phoff
        shoff
put_offsets ec phoff shoff eh e = record {
  header = if by_application e then eh else store_offsets ec phoff shoff eh;
  present = refl;
  offsets = elim (Bool-cases (by_application e)) [
    | inl app ↦ inl app
    | inr no_app ↦ inr (rw no_app (store_offsets-narrow ec phoff shoff eh))
  ];
}

pub finish_ehdr-Located :
    (a : Env) (ec : ElfClass) (eh : Ehdr) (phnum shnum phoff shoff : ℕ) (s s' : Sync) {u : Unit {0}}
    → finish_ehdr a ec eh phnum shnum phoff shoff s ≡ (ok u, s')
    → Located ec s'.elf phoff shoff
unfolding finish_ehdr
finish_ehdr-Located a ec eh phnum shnum phoff shoff s s' done =
    let t = on_elf (λ e. ignored (setphnum e eh ec phnum a.phnum_mem)) s in
    let (eh1, at_phnum, h1) = continue-ok t _ done in
    let t' = on_elf (λ e. ignored (setshnum e eh1 ec shnum a.shnum_mem)) t.1 in
    let (eh2, at_shnum, h2) = continue-ok t' _ h1 in
    rw (← ap (λ p. (p.1).elf) h2) (put_offsets ec phoff shoff eh2 t'.1.elf)
