-- ===== src/Gelf/Symshndx.antt =====
-- libelf/gelf_symshndx.c: symbols together with their extended section indices.
use elftoolchain_libelf.Base.{
  ℕ, ◌*◌, ◌%◌, ◌^◌, ◌<◌, ◌≡◌, ◌≢◌, refl, ap, inl, inr, Bool, true, false, not, ◌||◌, Option, none,
  some, leb, ◌==◌, if◌then◌else◌, length, set, get_elem?, get_elem?-lt, get_elem?-ge, Option-cases,
  arith,
}
use elftoolchain_libelf.Base.Int.{ℤ, pos}
use elftoolchain_libelf.Base.Outcome.{argument, Result, ok, err, fault, ◌>>=◌}
use elftoolchain_libelf.Format.Types.{ElfClass, class_none, ElfType, is_type, t_word, t_sym}
use elftoolchain_libelf.Format.SectionType.{xlate_shtype}
use elftoolchain_libelf.Format.Size.{msize}
use elftoolchain_libelf.Gelf.Entry.{Descriptor, LibelfData, index_of}
use elftoolchain_libelf.Gelf.Entry.Table.{IsElfClass, IsTable, scaled_test}
use elftoolchain_libelf.Gelf.Sym.{
  Sym, gelf_getsym, gelf_update_sym, gelf_getsym-IsTable, gelf_update_sym-d_type,
}

-- The checks from the class of the descriptor on; `type` is the `d_type` that the code tests.
check_words : (type : Option ElfType) → (sh_type d_size n : ℕ) → Descriptor → Result (Unit {0})
check_words type sh_type d_size n e = elim e.e_class [
  | class_none ↦ fault
  | ec ↦
      if not (is_type (xlate_shtype sh_type) t_word) || not (is_type type t_word)
      then err argument
      else if msize t_word ec e.e_version == 0
      then fault
      else if leb d_size (msize t_word ec e.e_version * n % 2 ^ 64)
      then err argument
      else ok tt
]

-- e == ld->d_scn->s_elf, for the data of the symbols, which `gelf_getsym` has found to have a section
same_elf : Descriptor → LibelfData Sym → Bool
same_elf e ld = elim ld.d_scn [
  | none ↦ false
  | some scn ↦ elim scn.s_elf [ none ↦ false | some f ↦ e.address == f.address ]
]

-- All checks on the data of the section indices; `given` says that `shindex` is not NULL.
check_indices :
    (type : Option ElfType) → LibelfData Sym → LibelfData ℕ → ℕ → (given : Bool) → Result (Unit {0})
unfolding check_words same_elf
check_indices type ld lid n given = elim lid.d_scn [
  | none ↦ err argument
  | some scn ↦ elim scn.s_elf [
    | none ↦ err argument
    | some e ↦
        if not (same_elf e ld) || not given
        then err argument
        else check_words type scn.sh_type lid.d_size n e
  ]
]

read_index : LibelfData ℕ → ℕ → Result ℕ
read_index id n = elim (get_elem? id.d_buf n) [ none ↦ fault | some x ↦ ok x ]

-- `dst` and `shindex` say that these pointers are not NULL.
unfoldable pub gelf_getsymshndx :
    (d : Option (LibelfData Sym))
    → (id : Option (LibelfData ℕ)) → ℤ
    → (dst shindex : Bool) → Result (Sym × ℕ)
unfolding gelf_getsym check_indices read_index
gelf_getsymshndx none id ndx dst shindex = err argument
gelf_getsymshndx (some d) none ndx dst shindex =
    gelf_getsym (some d) ndx dst >>= λ sym. err argument
gelf_getsymshndx (some d) (some id) ndx dst shindex = do
  sym ← gelf_getsym (some d) ndx dst
  checked ← check_indices id.d_type d id (index_of ndx) shindex
  x ← read_index id (index_of ndx)
  ok (sym, x)

-- The store to the section indices.
write_index : LibelfData ℕ → ℕ → ℕ → Result (Unit {0}) → Result (Unit {0}) × LibelfData ℕ
write_index id n xindex (ok u) = elim (get_elem? id.d_buf n) [
  | none ↦ (fault, id)
  | some old ↦ (ok tt, record id { d_buf = set id.d_buf n xindex })
]
write_index id n xindex r = (r, id)

-- What follows a `gelf_update_sym` that has succeeded, and has left `d` for the data of the symbols.
-- The type tested is that of the symbols.
update_index :
    LibelfData Sym → Option (LibelfData ℕ) → ℕ → ℕ → Result (Unit {0}) × Option (LibelfData ℕ)
unfolding check_indices write_index
update_index d none n xindex = (err argument, none)
update_index d (some id) n xindex =
    let (r, id') = write_index id n xindex (check_indices d.d_type d id n true) in (r, some id')

after_symbol :
    Result (Unit {0}) × Option (LibelfData Sym)
    → Option (LibelfData ℕ)
    → ℕ
    → ℕ
    → Result (Unit {0}) × Option (LibelfData Sym) × Option (LibelfData ℕ)
unfolding update_index
after_symbol (ok u, some d) id n xindex =
    let (r, id') = update_index d id n xindex in (r, some d, id')
after_symbol (r, d) id n xindex = (r, d, id)

-- The value returned, and the two data descriptors after the call.
unfoldable pub gelf_update_symshndx :
    (d : Option (LibelfData Sym))
    → (id : Option (LibelfData ℕ)) → ℤ
    → Option Sym
    → (xindex : ℕ) → Result (Unit {0}) × Option (LibelfData Sym) × Option (LibelfData ℕ)
unfolding gelf_update_sym after_symbol
gelf_update_symshndx d id ndx gs xindex =
    after_symbol (gelf_update_sym d ndx gs) id (index_of ndx) xindex

check_indices-ne-ok :
    (type : Option ElfType) (ld : LibelfData Sym) (lid : LibelfData ℕ) (n : ℕ) (given : Bool)
    → is_type type t_word ≡ false
    → check_indices type ld lid n given ≢ ok tt
unfolding check_indices
check_indices-ne-ok type ld lid n given no_word = λ checked. ground (arith, checked, no_word)

write_index-ne-ok :
    (id : LibelfData ℕ) (n xindex : ℕ) (r : Result (Unit {0}))
    → r ≢ ok tt
    → ((write_index id n xindex r).0 ≢ ok tt) × ((write_index id n xindex r).1 ≡ id)
unfolding write_index
write_index-ne-ok id n xindex (ok tt) ne = absurd (ne refl)
write_index-ne-ok id n xindex (err e) ne = (ne, refl)
write_index-ne-ok id n xindex fault ne = (ne, refl)

update_index-ne-ok :
    (d : LibelfData Sym) (id : Option (LibelfData ℕ)) (n xindex : ℕ)
    → is_type d.d_type t_word ≡ false
    → ((update_index d id n xindex).0 ≢ ok tt) × ((update_index d id n xindex).1 ≡ id)
unfolding update_index
update_index-ne-ok d none n xindex no_word = (λ e. ground (arith, e), refl)
update_index-ne-ok d (some id) n xindex no_word =
    let (fails, kept) =
      write_index-ne-ok id n xindex (check_indices d.d_type d id n true)
        (check_indices-ne-ok d.d_type d id n true no_word) in
    (fails, ap some kept)

gelf_update_sym-some :
    (d : LibelfData Sym) (ndx : ℤ) (gs : Option Sym)
    → (r : Result (Unit {0})) × (d' : LibelfData Sym) × (gelf_update_sym (some d) ndx gs
        ≡ (r, some d'))
unfolding gelf_update_sym
gelf_update_sym-some d ndx none = (err argument, d, refl)
gelf_update_sym-some d ndx (some s) = (_, _, refl)

after_symbol-fails :
    (r : Result (Unit {0})) (d : LibelfData Sym) (id : Option (LibelfData ℕ)) (n xindex : ℕ)
    → is_type d.d_type t_word ≡ false
    → ((after_symbol (r, some d) id n xindex).0 ≢ ok tt)
      × ((after_symbol (r, some d) id n xindex).1 ≡ some d)
      × ((after_symbol (r, some d) id n xindex).2 ≡ id)
unfolding after_symbol
after_symbol-fails (ok u) d id n xindex no_word =
    let (fails, kept) = update_index-ne-ok d id n xindex no_word in (fails, refl, kept)
after_symbol-fails (err e) d id n xindex no_word = (λ x. ground (arith, x), refl, refl)
after_symbol-fails fault d id n xindex no_word = (λ x. ground (arith, x), refl, refl)

-- On the data of a symbol table, whose type is not ELF_T_WORD, `gelf_update_symshndx` never succeeds:
-- it leaves the section indices as they are, though the symbol may have been written.
pub gelf_update_symshndx-fails :
    (d : LibelfData Sym) (id : Option (LibelfData ℕ)) (ndx : ℤ) (gs : Option Sym) (xindex : ℕ)
    → is_type d.d_type t_word ≡ false
    → ((gelf_update_symshndx (some d) id ndx gs xindex).0 ≢ ok tt)
      × ((gelf_update_symshndx (some d) id ndx gs xindex).1 ≡ (gelf_update_sym (some d) ndx gs).1)
      × ((gelf_update_symshndx (some d) id ndx gs xindex).2 ≡ id)
unfolding gelf_update_symshndx
gelf_update_symshndx-fails d id ndx gs xindex no_word =
    let (r, d', called) = gelf_update_sym-some d ndx gs in
    let same = gelf_update_sym-d_type d d' ndx gs r called in
    rw called (after_symbol-fails r d' id (index_of ndx) xindex (rw same no_word))

check_indices-IsTable :
    (d : LibelfData Sym) (id : LibelfData ℕ) (n : ℕ) (ec : ElfClass)
    → IsElfClass ec
    → (symbols : IsTable t_sym ec d) → (indices : IsTable t_word ec id)
    → indices.elf.address ≡ symbols.elf.address
    → id.d_type ≡ some t_word
    → n < 2 ^ 31
    → check_indices id.d_type d id n true
      ≡ (if leb (length id.d_buf) n then err argument else ok tt)
unfolding check_indices msize
check_indices-IsTable d id n ec (inl c) symbols indices same word int =
    ground (arith, scaled_test 4 (length id.d_buf) n (omega arith))
check_indices-IsTable d id n ec (inr c) symbols indices same word int =
    ground (arith, scaled_test 4 (length id.d_buf) n (omega arith))

-- Both entries at an index, or the error for an index that either table does not have.
abbrev pub both : Option Sym → Option ℕ → Result (Sym × ℕ)
both (some s) (some x) = ok (s, x)
both s x = err argument

-- On a symbol table and a table of section indices of the same object, `gelf_getsymshndx` returns both
-- entries at the index, and fails with ARGUMENT when either table is too short.
pub gelf_getsymshndx-IsTable :
    (d : LibelfData Sym) (id : LibelfData ℕ) (n : ℕ) (ec : ElfClass)
    → IsElfClass ec
    → (symbols : IsTable t_sym ec d) → (indices : IsTable t_word ec id)
    → indices.elf.address ≡ symbols.elf.address
    → id.d_type ≡ some t_word
    → n < 2 ^ 31
    → gelf_getsymshndx (some d) (some id) (pos n) true true
      ≡ both (get_elem? d.d_buf n) (get_elem? id.d_buf n)
unfolding gelf_getsymshndx
gelf_getsymshndx-IsTable d id n ec cls symbols indices same word int =
    rw
      (
        gelf_getsym-IsTable d n ec cls symbols int,
        check_indices-IsTable d id n ec cls symbols indices same word int,
      )
      (elim (Option-cases (get_elem? d.d_buf n)) [
        | inl no_symbol ↦ ground (arith, no_symbol)
        | inr (s, symbol) ↦ elim (Option-cases (get_elem? id.d_buf n)) [
          | inl no_index ↦ ground (arith, symbol, no_index, get_elem?-ge id.d_buf n no_index)
          | inr (x, index) ↦ ground (arith, cls, symbol, index, get_elem?-lt id.d_buf n index)
        ]
      ])
