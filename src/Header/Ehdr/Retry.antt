-- ===== src/Header/Ehdr/Retry.antt =====
-- libelf/libelf_ehdr.c: a header that was refused stays in the descriptor, where the next call finds it.
use elftoolchain_libelf.Base.{
  Bool, ◌≡◌, refl, sym, ap, ◌∙◌, true, not, ◌&&◌, none, some, ◌==◌, if◌then◌else◌, Bool-cases,
  ==_iff, inl, inr, drop, bit_or, arith,
}
use elftoolchain_libelf.Base.Outcome.{Result, ok, err, fault, ErrorCode, Malloc, granted, denied}
use elftoolchain_libelf.Format.Types.{ElfClass, ev_current}
use elftoolchain_libelf.State.{is_elf, has_class, is_write, Elf, Ehdr}
use elftoolchain_libelf.Flag.{f_dirty}
use elftoolchain_libelf.Numbering.{load_numbers}
use elftoolchain_libelf.Numbering.Keeps.{SameKind, load_numbers-SameKind}
use elftoolchain_libelf.Header.Ehdr.{
  Library, ehdr, find_ehdr, new_ehdr, translate_ehdr, loaded_ehdr, class_code, init_ehdr, swaps,
  raw_bytes,
}
use elftoolchain_libelf.Header.Ehdr.Laws.{ehdr-present}

loaded_ehdr-elf : (eh : Ehdr) (r : Result (Unit {0}) × Elf) → (loaded_ehdr eh r).1 ≡ r.1
unfolding loaded_ehdr
loaded_ehdr-elf eh (ok u, e) = refl
loaded_ehdr-elf eh (err c, e) = refl
loaded_ehdr-elf eh (fault, e) = refl

translate_ehdr-SameKind :
    (lib : Library) (e : Elf) (ec : ElfClass) (scn0 : Malloc)
    → SameKind e (translate_ehdr lib e ec scn0).1
unfolding translate_ehdr
translate_ehdr-SameKind lib e ec scn0 =
    let eh = lib.to_ehdr ec (swaps lib e) (raw_bytes e) in
    let sh0 = lib.to_shdr ec (swaps lib e) (drop eh.e_shoff (raw_bytes e)) in
    let r = load_numbers (record e { e_ehdr = some eh }) ec eh sh0 scn0 in
    let k = load_numbers-SameKind (record e { e_ehdr = some eh }) ec eh sh0 scn0 in
    record {
      same_kind = ap (λ x. x.e_kind) (loaded_ehdr-elf eh r) ∙ k.same_kind;
      same_class = ap (λ x. x.e_class) (loaded_ehdr-elf eh r) ∙ k.same_class;
      same_version = ap (λ x. x.e_version) (loaded_ehdr-elf eh r) ∙ k.same_version;
    }

new_ehdr-SameKind :
    (lib : Library) (e : Elf) (ec : ElfClass) (allocate : Bool) (mem scn0 : Malloc)
    → SameKind e (new_ehdr lib e ec allocate mem scn0).1
unfolding new_ehdr
new_ehdr-SameKind lib e ec allocate (denied n) scn0 = record {
  same_kind = refl;
  same_class = refl;
  same_version = refl;
}
new_ehdr-SameKind lib e ec allocate granted scn0 =
    let eh = init_ehdr ec lib.version in
    let flags = if allocate then bit_or e.e_flags f_dirty else e.e_flags in
    let e1 : Elf = record e { e_ehdr = some eh; e_flags = flags } in
    let k = translate_ehdr-SameKind lib e1 ec scn0 in
    elim (Bool-cases (is_write e.e_cmd)) [
      | inl write ↦ rw write (record { same_kind = refl; same_class = refl; same_version = refl })
      | inr read ↦ rw read (record {
        same_kind = k.same_kind;
        same_class = k.same_class;
        same_version = k.same_version;
      })
    ]

find_ehdr-SameKind :
    (lib : Library) (e : Elf) (ec : ElfClass) (allocate : Bool) (mem scn0 : Malloc)
    → SameKind e (find_ehdr lib e ec allocate mem scn0 none).1
unfolding find_ehdr
find_ehdr-SameKind lib e ec allocate mem scn0 =
    let k = new_ehdr-SameKind lib e ec allocate mem scn0 in ground (arith, k)

-- The call that a failure after the tests of the descriptor stands for.
ehdr-find_ehdr :
    (lib : Library) (e : Elf) (ec : ElfClass) (allocate : Bool) (mem scn0 : Malloc) (c : ErrorCode)
    (e' : Elf) (eh : Ehdr)
    → e.e_ehdr ≡ none
    → ehdr lib e ec allocate mem scn0 ≡ (err c, e')
    → e'.e_ehdr ≡ some eh
    → (has_class ec ≡ true)
      × (is_elf e.e_kind ≡ true)
      × (e.e_version ≡ ev_current)
      × (find_ehdr lib (record e { e_class = ec }) ec allocate mem scn0 none ≡ (err c, e'))
unfolding ehdr
ehdr-find_ehdr lib e ec allocate mem scn0 c e' eh absent h there =
    let find = find_ehdr lib (record e { e_class = ec }) ec allocate mem scn0 e.e_ehdr in
    let other = has_class e.e_class && not (class_code e.e_class == class_code ec) in
    elim (Bool-cases (has_class ec)) [
      | inr unknown ↦ ground (arith, h, unknown)
      | inl known ↦ elim (Bool-cases (is_elf e.e_kind)) [
        | inr no_elf ↦ ground (arith, h, known, no_elf)
        | inl elf ↦ elim (Bool-cases other) [
          | inl differs ↦ ground (arith, h, known, elf, differs)
          | inr agrees ↦ elim (Bool-cases (e.e_version == ev_current)) [
            | inr old ↦ ground (arith, h, known, elf, agrees, old)
            | inl current ↦ (
              known,
              elf,
              (==_iff _ _).0 current,
              ap (λ o. find_ehdr lib (record e { e_class = ec }) ec allocate mem scn0 o)
                    (sym absent)
                  ∙ rw (known, elf, agrees, current) at h,
            )
          ]
        ]
      ]
    ]

-- A call of `ehdr` that fails after it has put a header into the descriptor, which is where the
-- numbers in the header are refused, is followed by calls that succeed with this header, without its
-- numbers being loaded: the descriptor stays as the failure left it.
pub ehdr-retry :
    (lib : Library) (e : Elf) (ec : ElfClass) (allocate allocate' : Bool)
    (mem scn0 mem' scn0' : Malloc) (c : ErrorCode) (e' : Elf) (eh : Ehdr)
    → e.e_ehdr ≡ none
    → ehdr lib e ec allocate mem scn0 ≡ (err c, e')
    → e'.e_ehdr ≡ some eh
    → ehdr lib e' ec allocate' mem' scn0' ≡ (ok eh, e')
ehdr-retry lib e ec allocate allocate' mem scn0 mem' scn0' c e' eh absent h there =
    let (known, elf, current, found) =
      ehdr-find_ehdr lib e ec allocate mem scn0 c e' eh absent h there in
    let k = find_ehdr-SameKind lib (record e { e_class = ec }) ec allocate mem scn0 in
    let same : (find_ehdr lib (record e { e_class = ec }) ec allocate mem scn0 none).1 ≡ e' =
      ap (λ r. r.1) found in
    ehdr-present lib e' ec allocate' mem' scn0' eh
      (ap (λ x. is_elf x.e_kind) (sym same) ∙ ap (λ x. is_elf x) k.same_kind ∙ elf)
      (ap (λ x. x.e_class) (sym same) ∙ k.same_class) known
      (ap (λ x. x.e_version) (sym same) ∙ k.same_version ∙ current) there
