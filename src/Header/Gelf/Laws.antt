-- ===== src/Header/Gelf/Laws.antt =====
-- libelf/gelf_ehdr.c, gelf_phdr.c, gelf_shdr.c: what the update functions leave for the others.
use elftoolchain_libelf.Base.{
  ℕ, ◌<◌, ◌≡◌, refl, sym, ap, ◌∙◌, inl, inr, true, false, Option, none, some, List, length,
  get_elem?, set, Option-cases, Bool-cases, ltb, leb, arith,
}
use elftoolchain_libelf.Base.Int.{pos}
use elftoolchain_libelf.Base.Outcome.{ErrorCode, ok, err, Malloc, mode}
use elftoolchain_libelf.Format.Types.{ElfClass, class_none, class_32, class_64}
use elftoolchain_libelf.State.{is_read, Elf, Ehdr, Phdr}
use elftoolchain_libelf.Flag.{elf_flagphdr}
use elftoolchain_libelf.Gelf.Entry.{Stored, stored_result, store_class}
use elftoolchain_libelf.Gelf.Member.{copy_u32}
use elftoolchain_libelf.Header.Ehdr.{Library, ehdr}
use elftoolchain_libelf.Header.Ehdr.Laws.{IsOpen, ehdr-open}
use elftoolchain_libelf.Header.Phdr.{flag_phdr}
use elftoolchain_libelf.Header.Phdr.Laws.{getphdr-present}
use elftoolchain_libelf.Header.Number.{elf_getphdrnum}
use elftoolchain_libelf.Header.Number.Laws.{number_of-open}
use elftoolchain_libelf.Header.Gelf.{
  store_ehdr, phdr_at, table_at, below_phnum, gelf_getphdr, store_phdr, write_phdr, put_phdr,
  counted_phdr, gelf_update_phdr,
}

-- The table of program headers, where there is one, has the number of entries of the descriptor.
abbrev pub Counted : Elf → Type 0
Counted e = (phdrs : List Phdr) → e.e_phdr ≡ some phdrs → length phdrs ≡ e.e_nphdr

module _ (lib : Library) (e : Elf) (eh : Ehdr) (o : IsOpen e eh) (mem scn0 : Malloc) where
  elf_getphdrnum-open : elf_getphdrnum lib e mem scn0 ≡ (ok e.e_nphdr, e)
  unfolding elf_getphdrnum
  elf_getphdrnum-open = number_of-open (λ x. x.e_nphdr) lib e eh o mem scn0

  pub gelf_update_phdr-open :
      (n : ℕ) (new : Phdr)
      → is_read e.e_cmd ≡ false
      → gelf_update_phdr lib e (pos n) (some new) mem scn0
        ≡ put_phdr e.e_class (pos n) e.e_nphdr new (ok eh, e)
  unfolding gelf_update_phdr counted_phdr
  gelf_update_phdr-open n new writes =
      let steps : gelf_update_phdr lib e (pos n) (some new) mem scn0
          ≡ counted_phdr lib (pos n) new mem scn0 (elf_getphdrnum lib e mem scn0) =
        rw (o.elf, o.known_class) in
      let counts : counted_phdr lib (pos n) new mem scn0 (ok e.e_nphdr, e)
          ≡ put_phdr e.e_class (pos n) e.e_nphdr new (ehdr lib e e.e_class false mem scn0) =
        rw writes in
      steps
      ∙ ap (counted_phdr lib (pos n) new mem scn0) elf_getphdrnum-open
      ∙ counts
      ∙ ap (put_phdr e.e_class (pos n) e.e_nphdr new) (ehdr-open lib e eh o mem scn0)

  pub gelf_update_phdr-mode :
      (n : ℕ) (new : Phdr)
      → is_read e.e_cmd ≡ true
      → gelf_update_phdr lib e (pos n) (some new) mem scn0 ≡ (err mode, e)
  unfolding gelf_update_phdr counted_phdr
  gelf_update_phdr-mode n new reads =
      let steps : gelf_update_phdr lib e (pos n) (some new) mem scn0
          ≡ counted_phdr lib (pos n) new mem scn0 (elf_getphdrnum lib e mem scn0) =
        rw (o.elf, o.known_class) in
      let stops : counted_phdr lib (pos n) new mem scn0 (ok e.e_nphdr, e) ≡ (err mode, e) =
        rw reads in
      steps ∙ ap (counted_phdr lib (pos n) new mem scn0) elf_getphdrnum-open ∙ stops

  pub gelf_getphdr-open :
      (n : ℕ) (phdr_mem : Malloc) (phdrs : List Phdr) (ph : Phdr)
      → e.e_phdr ≡ some phdrs
      → get_elem? phdrs n ≡ some ph
      → n < e.e_nphdr
      → gelf_getphdr lib e (pos n) true mem scn0 phdr_mem ≡ (ok ph, e)
  unfolding gelf_getphdr below_phnum table_at phdr_at
  gelf_getphdr-open n phdr_mem phdrs ph there found lt =
      let below : leb e.e_nphdr n ≡ false = ground arith in
      let steps : gelf_getphdr lib e (pos n) true mem scn0 phdr_mem
          ≡ below_phnum lib n mem scn0 phdr_mem (elf_getphdrnum lib e mem scn0) =
        rw (o.elf, o.known_class) in
      let inside : below_phnum lib n mem scn0 phdr_mem (ok e.e_nphdr, e)
          ≡ table_at lib n mem scn0 phdr_mem (ehdr lib e e.e_class false mem scn0) =
        rw below in
      let entry : phdr_at n (ok phdrs, e) ≡ (ok ph, e) = rw (found, phdr_at) in
      steps
      ∙ ap (below_phnum lib n mem scn0 phdr_mem) elf_getphdrnum-open
      ∙ inside
      ∙ ap (table_at lib n mem scn0 phdr_mem) (ehdr-open lib e eh o mem scn0)
      ∙ ap (phdr_at n) (getphdr-present lib e e.e_class mem scn0 phdr_mem phdrs o.known_class there)
      ∙ entry

pub store_phdr-Undoes :
    (new old : Phdr) → (store_phdr new old).1 ≡ none → (store_phdr new old).0 ≡ new
unfolding store_phdr copy_u32
store_phdr-Undoes new old h = ground arith

pub store_ehdr-Undoes :
    (new old : Ehdr) → (store_ehdr new old).1 ≡ none → (store_ehdr new old).0 ≡ new
unfolding store_ehdr copy_u32
store_ehdr-Undoes new old h = ground arith

pub store_class-Undoes :
    {A : Type 0} (ec : ElfClass) (store : A → A → Stored A) (new old : A)
    → ((store new old).1 ≡ none → (store new old).0 ≡ new)
    → (store_class ec store new old).1 ≡ none
    → (store_class ec store new old).0 ≡ new
store_class-Undoes class_32 store new old undoes h = undoes h
store_class-Undoes class_64 store new old undoes h = refl
store_class-Undoes class_none store new old undoes h = refl

pub stored_result-ok : (o : Option ErrorCode) → stored_result o ≡ ok tt → o ≡ none
stored_result-ok none h = refl
stored_result-ok (some c) h = ground (arith, h)

-- What a write that succeeds has found and has left.
write_phdr-ok :
    (ec : ElfClass) (n : ℕ) (new : Phdr) (e e' : Elf) (o : Option (List Phdr))
    → write_phdr ec n new e o ≡ (ok tt, e')
    → (phdrs : List Phdr) × (old : Phdr) × (o ≡ some phdrs)
      × (get_elem? phdrs n ≡ some old)
      × (record e { e_phdr = some (set phdrs n new) } ≡ e')
unfolding write_phdr
write_phdr-ok ec n new e e' none h = ground (arith, h)
write_phdr-ok ec n new e e' (some phdrs) h = elim (Option-cases (get_elem? phdrs n)) [
  | inl outside ↦ absurd (ground (arith, h, outside))
  | inr (old, found) ↦
      let stored : (
        stored_result (store_class ec store_phdr new old).1,
        record e { e_phdr = some (set phdrs n (store_class ec store_phdr new old).0) },
      )
          ≡ (ok tt, e') =
        rw (found, write_phdr) at h in
      let kept =
        store_class-Undoes ec store_phdr new old (store_phdr-Undoes new old)
          (stored_result-ok _ (ap (λ r. r.0) stored)) in
      (
        phdrs,
        old,
        refl,
        found,
        ap (λ ph. record e { e_phdr = some (set phdrs n ph) }) (sym kept) ∙ ap (λ r. r.1) stored,
      )
]

pub flag_phdr-IsOpen : (e : Elf) (eh : Ehdr) → IsOpen e eh → IsOpen (flag_phdr e) eh
unfolding flag_phdr elf_flagphdr
flag_phdr-IsOpen e eh o = ground (arith, o.elf, o.known_class, o.current, o.present)

pub flag_phdr-e_nphdr : (e : Elf) → (flag_phdr e).e_nphdr ≡ e.e_nphdr
unfolding flag_phdr elf_flagphdr
flag_phdr-e_nphdr e = ground arith

pub put_phdr-ok :
    (ec : ElfClass) (n phnum : ℕ) (new : Phdr) (eh : Ehdr) (e e' : Elf)
    → put_phdr ec (pos n) phnum new (ok eh, e) ≡ (ok tt, e')
    → (phdrs : List Phdr) × (old : Phdr) × (e.e_phdr ≡ some phdrs)
      × (get_elem? phdrs n ≡ some old)
      × (record (flag_phdr e) { e_phdr = some (set phdrs n new) } ≡ e')
unfolding put_phdr
put_phdr-ok ec n phnum new eh e e' h = elim (Bool-cases (ltb phnum n)) [
  | inl above ↦ absurd (ground (arith, h, above))
  | inr below ↦ write_phdr-ok ec n new (flag_phdr e) e' e.e_phdr (rw below at h)
]
