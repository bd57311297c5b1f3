-- ===== src/Header/Gelf/RoundTrip.antt =====
-- libelf/gelf_ehdr.c, gelf_phdr.c, gelf_shdr.c: what the get functions return after an update.
use elftoolchain_libelf.Base.{
  ℕ, ◌<◌, ◌≡◌, refl, sym, ap, ◌∙◌, inl, inr, true, false, not, ◌||◌, none, some, List, get_elem?,
  set, get_elem?-set_self, get_elem?-lt, Bool-cases, arith,
}
use elftoolchain_libelf.Base.Int.{pos}
use elftoolchain_libelf.Base.Outcome.{ok, err, Malloc, mode}
use elftoolchain_libelf.State.{is_read, is_elf, has_class, Elf, Ehdr, Phdr, Shdr, Scn}
use elftoolchain_libelf.Flag.{elf_flagehdr}
use elftoolchain_libelf.Gelf.Member.{copy_u32}
use elftoolchain_libelf.Header.Ehdr.{Library, ehdr, flag_ehdr}
use elftoolchain_libelf.Header.Ehdr.Laws.{IsOpen, ehdr-open}
use elftoolchain_libelf.Header.Phdr.{flag_phdr}
use elftoolchain_libelf.Header.Gelf.{
  gelf_getehdr, store_ehdr, put_ehdr, gelf_update_ehdr, gelf_getphdr, gelf_update_phdr,
  gelf_getshdr, store_gelf_shdr, gelf_update_shdr,
}
use elftoolchain_libelf.Header.Gelf.Laws.{
  Counted, gelf_update_phdr-open, gelf_update_phdr-mode, gelf_getphdr-open, put_phdr-ok,
  flag_phdr-IsOpen, flag_phdr-e_nphdr, store_ehdr-Undoes, store_class-Undoes, stored_result-ok,
}

get_written :
    (l : List Phdr) (n : ℕ) (old new : Phdr)
    → get_elem? l n ≡ some old
    → get_elem? (set l n new) n ≡ some new
get_written l n old new found = get_elem?-set_self l n new (get_elem?-lt l n found)

-- A program header that a successful `gelf_update_phdr` wrote is what `gelf_getphdr` returns, in either
-- class. The object must have its executable header, and as many program headers in its table as it
-- counts.
pub gelf_getphdr-update_phdr :
    (lib : Library) (e e' : Elf) (eh : Ehdr) (n : ℕ) (new : Phdr)
    (mem scn0 mem' scn0' phdr_mem : Malloc)
    → IsOpen e eh
    → Counted e
    → gelf_update_phdr lib e (pos n) (some new) mem scn0 ≡ (ok tt, e')
    → gelf_getphdr lib e' (pos n) true mem' scn0' phdr_mem ≡ (ok new, e')
gelf_getphdr-update_phdr lib e e' eh n new mem scn0 mem' scn0' phdr_mem o counted h =
    elim (Bool-cases (is_read e.e_cmd)) [
      | inl reads ↦
          let stopped = gelf_update_phdr-mode lib e eh o mem scn0 n new reads in
          absurd (ground (arith, h, stopped))
      | inr writes ↦
          let (phdrs, old, there, found, same) =
            put_phdr-ok e.e_class n e.e_nphdr new eh e e'
              (sym (gelf_update_phdr-open lib e eh o mem scn0 n new writes) ∙ h) in
          let e1 : Elf = record (flag_phdr e) { e_phdr = some (set phdrs n new) } in
          let o1 = flag_phdr-IsOpen e eh o in
          let lt : n < (flag_phdr e).e_nphdr =
            omega (arith, get_elem?-lt phdrs n found, counted phdrs there, flag_phdr-e_nphdr e) in
          rw (← same) (
            gelf_getphdr-open lib e1 eh
              (record {
                elf = o1.elf;
                known_class = o1.known_class;
                current = o1.current;
                present = o1.present;
              })
              mem' scn0' n phdr_mem (set phdrs n new) new refl (get_written phdrs n old new found)
              lt)
    ]

flag_ehdr-keeps :
    (e : Elf)
    → ((flag_ehdr e).e_kind ≡ e.e_kind)
      × ((flag_ehdr e).e_class ≡ e.e_class)
      × ((flag_ehdr e).e_version ≡ e.e_version)
unfolding flag_ehdr elf_flagehdr
flag_ehdr-keeps e = ground arith

-- An executable header that a successful `gelf_update_ehdr` wrote is what `gelf_getehdr` returns, in
-- either class. The object must have an executable header.
pub gelf_getehdr-update_ehdr :
    (lib : Library) (e e' : Elf) (eh new : Ehdr) (mem scn0 mem' scn0' : Malloc)
    → IsOpen e eh
    → gelf_update_ehdr lib e (some new) mem scn0 ≡ (ok tt, e')
    → gelf_getehdr lib e' true mem' scn0' ≡ (ok new, e')
unfolding gelf_update_ehdr put_ehdr gelf_getehdr
gelf_getehdr-update_ehdr lib e e' eh new mem scn0 mem' scn0' o h =
    elim (Bool-cases (is_read e.e_cmd)) [
      | inl reads ↦
          let steps : gelf_update_ehdr lib e (some new) mem scn0 ≡ (err mode, e) =
            rw (o.elf, o.known_class, reads) in
          absurd (ground (arith, h, steps))
      | inr writes ↦
          let steps : gelf_update_ehdr lib e (some new) mem scn0
              ≡ put_ehdr e.e_class new (ehdr lib e e.e_class false mem scn0) =
            rw (o.elf, o.known_class, writes) in
          let stored : put_ehdr e.e_class new (ok eh, e) ≡ (ok tt, e') =
            ap (put_ehdr e.e_class new) (sym (ehdr-open lib e eh o mem scn0)) ∙ sym steps ∙ h in
          let kept =
            store_class-Undoes e.e_class store_ehdr new eh (store_ehdr-Undoes new eh)
              (stored_result-ok _ (ap (λ r. r.0) stored)) in
          let same = ap (λ r. r.1) stored in
          let (kind, cls, version) = flag_ehdr-keeps e in
          let known : has_class e'.e_class ≡ true =
            ap (λ x. has_class x.e_class) (sym same) ∙ ap has_class cls ∙ o.known_class in
          let open1 : IsOpen e' new = record {
            elf = ap (λ x. is_elf x.e_kind) (sym same) ∙ ap is_elf kind ∙ o.elf;
            known_class = known;
            current = ap (λ x. x.e_version) (sym same) ∙ version ∙ o.current;
            present = ap (λ x. x.e_ehdr) (sym same) ∙ ap some kept;
          } in
          let there : gelf_getehdr lib e' true mem' scn0'
              ≡ ehdr lib e' e'.e_class false mem' scn0' =
            rw known in
          there ∙ ehdr-open lib e' new open1 mem' scn0'
    ]

store_gelf_shdr-Undoes :
    (new old : Shdr) → (store_gelf_shdr new old).1 ≡ none → (store_gelf_shdr new old).0 ≡ new
unfolding store_gelf_shdr copy_u32
store_gelf_shdr-Undoes new old h = ground arith

-- A section header that a successful `gelf_update_shdr` wrote is what `gelf_getshdr` returns, in either
-- class.
pub gelf_getshdr-update_shdr :
    (e : Elf) (s s' : Scn) (new : Shdr)
    → gelf_update_shdr e s (some new) ≡ (ok tt, s')
    → gelf_getshdr e s' true ≡ ok new
unfolding gelf_update_shdr gelf_getshdr
gelf_getshdr-update_shdr e s s' new h =
    elim (Bool-cases (not (is_elf e.e_kind) || not (has_class e.e_class))) [
      | inl bad ↦ absurd (ground (arith, h, bad))
      | inr good ↦ elim (Bool-cases (is_read e.e_cmd)) [
        | inl reads ↦ absurd (ground (arith, h, good, reads))
        | inr writes ↦
            let stored = rw (good, writes) at h in
            let kept =
              store_class-Undoes e.e_class store_gelf_shdr new s.s_shdr
                (store_gelf_shdr-Undoes new s.s_shdr) (stored_result-ok _ (ap (λ r. r.0) stored)) in
            let there : gelf_getshdr e s' true ≡ ok s'.s_shdr = ground (arith, good) in
            there ∙ ap (λ x. ok x.s_shdr) (sym (ap (λ r. r.1) stored)) ∙ ap ok kept
      ]
    ]
