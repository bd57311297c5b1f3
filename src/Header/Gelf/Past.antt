-- ===== src/Header/Gelf/Past.antt =====
-- libelf/gelf_phdr.c: the calls of `gelf_update_phdr` that write outside the program header table.
use elftoolchain_libelf.Base.{
  ℕ, ◌≤◌, ◌≡◌, ◌↔◌, ◌⊎◌, refl, sym, ap, ◌∙◌, inl, inr, false, Option, none, some, List, length,
  get_elem?, get_elem?-lt, get_elem?-ge, Option-cases, Bool-cases, ltb, ltb→lt, not_ltb→le, arith,
}
use elftoolchain_libelf.Base.Int.{pos}
use elftoolchain_libelf.Base.Outcome.{ErrorCode, ok, fault, Malloc}
use elftoolchain_libelf.Format.Types.{ElfClass}
use elftoolchain_libelf.State.{is_read, Elf, Ehdr, Phdr}
use elftoolchain_libelf.Gelf.Entry.{stored_result}
use elftoolchain_libelf.Header.Ehdr.{Library}
use elftoolchain_libelf.Header.Ehdr.Laws.{IsOpen}
use elftoolchain_libelf.Header.Phdr.{flag_phdr}
use elftoolchain_libelf.Header.Gelf.{write_phdr, put_phdr, gelf_update_phdr}
use elftoolchain_libelf.Header.Gelf.Laws.{Counted, gelf_update_phdr-open}

-- The table that is there, if any, does not reach up to `n`.
Outside : ℕ → Option (List Phdr) → Type 0
Outside n o = (o ≡ none) ⊎ ((phdrs : List Phdr) × (o ≡ some phdrs) × (length phdrs ≤ n))

stored_result-fault : (o : Option ErrorCode) → stored_result o ≡ fault → ⊥
stored_result-fault none h = ground (arith, h)
stored_result-fault (some c) h = ground (arith, h)

write_phdr-fault_iff :
    (ec : ElfClass) (n : ℕ) (new : Phdr) (e : Elf) (o : Option (List Phdr))
    → ((write_phdr ec n new e o).0 ≡ fault) ↔ Outside n o
unfolding write_phdr Outside
write_phdr-fault_iff ec n new e none = (λ h. inl refl, λ h. refl)
write_phdr-fault_iff ec n new e (some phdrs) = elim (Option-cases (get_elem? phdrs n)) [
  | inl past ↦ (λ h. inr (phdrs, refl, get_elem?-ge phdrs n past), λ h. rw (past, write_phdr))
  | inr (old, found) ↦ (
    λ h. absurd (stored_result-fault _ (rw (found, write_phdr) at h)),
    λ h. absurd (ground (arith, h, get_elem?-lt phdrs n found)),
  )
]

put_phdr-fault_iff :
    (ec : ElfClass) (n phnum : ℕ) (new : Phdr) (eh : Ehdr) (e : Elf)
    → ((put_phdr ec (pos n) phnum new (ok eh, e)).0 ≡ fault) ↔ ((n ≤ phnum) × Outside n e.e_phdr)
unfolding put_phdr
put_phdr-fault_iff ec n phnum new eh e = elim (Bool-cases (ltb phnum n)) [
  | inl above ↦ (
    λ h. absurd (ground (arith, h, above)),
    λ h. absurd (omega (arith, ltb→lt phnum n above, h.0)),
  )
  | inr below ↦
      let written = write_phdr-fault_iff ec n new (flag_phdr e) e.e_phdr in
      rw (below, put_phdr) (λ h. (not_ltb→le phnum n below, written.0 h), λ h. written.1 h.1)
]

Outside-iff :
    (e : Elf) (n : ℕ)
    → Counted e
    → n ≤ e.e_nphdr
    → Outside n e.e_phdr ↔ ((e.e_phdr ≡ none) ⊎ (n ≡ e.e_nphdr))
unfolding Outside
Outside-iff e n counted le = (one, two)
  where
    one : Outside n e.e_phdr → (e.e_phdr ≡ none) ⊎ (n ≡ e.e_nphdr)
    one (inl missing) = inl missing
    one (inr (phdrs, there, past)) = inr (omega (arith, counted phdrs there, past, le))

    two : (e.e_phdr ≡ none) ⊎ (n ≡ e.e_nphdr) → Outside n e.e_phdr
    two (inl missing) = inl missing
    two (inr same) = elim (Option-cases e.e_phdr) [
      | inl missing ↦ inl missing
      | inr (phdrs, there) ↦ inr (phdrs, there, omega (arith, counted phdrs there, same))
    ]

-- On an object that is not open for reading alone, `gelf_update_phdr` writes outside the program header
-- table exactly where the index is at most the number of program headers and the table is not loaded,
-- or the index is this number. The object must have its executable header, and as many program
-- headers in its table, if it is loaded, as it counts.
pub gelf_update_phdr-fault_iff :
    (lib : Library) (e : Elf) (eh : Ehdr) (n : ℕ) (new : Phdr) (mem scn0 : Malloc)
    → IsOpen e eh
    → Counted e
    → is_read e.e_cmd ≡ false
    → ((gelf_update_phdr lib e (pos n) (some new) mem scn0).0 ≡ fault)
      ↔ ((n ≤ e.e_nphdr) × ((e.e_phdr ≡ none) ⊎ (n ≡ e.e_nphdr)))
gelf_update_phdr-fault_iff lib e eh n new mem scn0 o counted writes =
    let steps = ap (λ r. r.0) (gelf_update_phdr-open lib e eh o mem scn0 n new writes) in
    let put = put_phdr-fault_iff e.e_class n e.e_nphdr new eh e in
    (
      λ h. let (le, out) = put.0 (sym steps ∙ h) in (le, (Outside-iff e n counted le).0 out),
      λ h. steps ∙ put.1 (h.0, (Outside-iff e n counted h.0).1 h.1),
    )
