-- ===== src/Gelf/Sym.antt =====
-- libelf/gelf_sym.c: symbols.
use elftoolchain_libelf.Base.{
  ℕ, ◌^◌, ◌<◌, ◌≡◌, refl, ◌↔◌, ◌≢◌, inl, inr, true, Option, none, some, Bool, length, get_elem?,
  get_elem?-lt, get_elem?-ge, set, ltb, if◌then◌else◌, ◌&&◌, ◌∙◌, Option-cases, arith,
}
use elftoolchain_libelf.Base.Int.{ℤ, pos}
use elftoolchain_libelf.Base.Outcome.{Result, ok, err, argument, range}
use elftoolchain_libelf.Format.Types.{ElfClass, class_none, class_32, class_64, t_sym, ev_current}
use elftoolchain_libelf.Format.Size.{msize}
use elftoolchain_libelf.Gelf.Entry.{LibelfData, Stored, stored_result, get_entry, update_entry}
use elftoolchain_libelf.Gelf.Entry.Laws.{get_entry-update, update_entry-Frame}
use elftoolchain_libelf.Gelf.Entry.Table.{
  IsElfClass, IsTable, get_entry-IsTable, update_entry-IsTable, found, stored, IsTable-Frame,
  IsEntrySize,
}
use elftoolchain_libelf.Gelf.Member.{copy_u32}

-- Elf32_Sym and Elf64_Sym
pub record Sym : Type 0 where
  pub st_name : ℕ
  pub st_info : ℕ
  pub st_other : ℕ
  pub st_shndx : ℕ
  pub st_value : ℕ
  pub st_size : ℕ

abbrev pub widen_sym : Sym → Sym
widen_sym s = s

-- The assignments to an Elf32_Sym in `gelf_update_sym`.
unfoldable pub store_sym : Sym → Sym → Stored Sym
unfolding copy_u32
store_sym gs old =
    let named = record old {
      st_name = gs.st_name;
      st_info = gs.st_info;
      st_other = gs.st_other;
      st_shndx = gs.st_shndx;
    } in
    copy_u32 gs.st_value named λ v.
      let valued = record named { st_value = v } in
      copy_u32 gs.st_size valued λ z. (record valued { st_size = z }, none)

unfoldable pub gelf_getsym : Option (LibelfData Sym) → ℤ → (dst : Bool) → Result Sym
unfolding get_entry
gelf_getsym ed ndx dst = get_entry t_sym widen_sym ed ndx dst

unfoldable pub gelf_update_sym :
    Option (LibelfData Sym) → ℤ → Option Sym → Result (Unit {0}) × Option (LibelfData Sym)
unfolding update_entry store_sym
gelf_update_sym ed ndx gs = update_entry t_sym store_sym ed ndx gs

store_sym-Undoes : (new old : Sym) → (store_sym new old).1 ≡ none → (store_sym new old).0 ≡ new
unfolding store_sym
store_sym-Undoes new old h = ground arith

-- A symbol that a successful `gelf_update_sym` wrote is what `gelf_getsym` returns, in either class.
pub gelf_getsym-update_sym :
    (d d' : LibelfData Sym) (ndx : ℤ) (gs : Sym)
    → gelf_update_sym (some d) ndx (some gs) ≡ (ok tt, some d')
    → gelf_getsym (some d') ndx true ≡ ok gs
unfolding gelf_update_sym gelf_getsym
gelf_getsym-update_sym d d' ndx gs h =
    get_entry-update t_sym widen_sym store_sym d d' ndx gs (λ old e. store_sym-Undoes gs old e) h

-- The symbol after an update.
abbrev pub updated_sym : ElfClass → (gs old : Sym) → Sym
updated_sym class_32 gs old = record {
  st_name = gs.st_name;
  st_info = gs.st_info;
  st_other = gs.st_other;
  st_shndx = gs.st_shndx;
  st_value = if ltb gs.st_value (2 ^ 32) then gs.st_value else old.st_value;
  st_size = if ltb gs.st_value (2 ^ 32) && ltb gs.st_size (2 ^ 32) then gs.st_size else old.st_size;
}
updated_sym ec gs old = gs

-- The result of the update of a symbol that is there.
abbrev pub updated_result : ElfClass → Sym → Result (Unit {0})
updated_result class_32 gs =
    if ltb gs.st_value (2 ^ 32) && ltb gs.st_size (2 ^ 32) then ok tt else err range
updated_result ec gs = ok tt

abbrev pub updated :
    LibelfData Sym → ℕ → Sym → ElfClass → Option Sym → Result (Unit {0}) × Option (LibelfData Sym)
updated d n gs ec none = (err argument, some d)
updated d n gs ec (some old) =
    (updated_result ec gs, some (record d { d_buf = set d.d_buf n (updated_sym ec gs old) }))

store_sym-updated :
    (gs old : Sym)
    → ((store_sym gs old).0 ≡ updated_sym class_32 gs old)
      × (stored_result (store_sym gs old).1 ≡ updated_result class_32 gs)
unfolding store_sym copy_u32
store_sym-updated gs old = (ground arith, ground arith)

stored-updated :
    (d : LibelfData Sym) (n : ℕ) (gs : Sym) (ec : ElfClass)
    → IsElfClass ec
    → (o : Option Sym) → stored store_sym d n gs ec o ≡ updated d n gs ec o
stored-updated d n gs ec cls none = refl
stored-updated d n gs class_none cls (some old) = ground (arith, cls)
stored-updated d n gs class_32 cls (some old) =
    let (members, result) = store_sym-updated gs old in rw (members, result) refl
stored-updated d n gs class_64 cls (some old) = refl

msize-sym : (ec : ElfClass) → IsElfClass ec → IsEntrySize (msize t_sym ec ev_current)
unfolding msize
msize-sym ec (inl e) = ground arith
msize-sym ec (inr e) = ground arith

module _ (d : LibelfData Sym) (n : ℕ) (ec : ElfClass) (cls : IsElfClass ec)
    (table : IsTable t_sym ec d) (int : n < 2 ^ 31) where
  -- On a symbol table `gelf_getsym` returns the symbol at the index, and fails with ARGUMENT at
  -- every index past the last one; it never reads outside the buffer.
  pub gelf_getsym-IsTable :
      gelf_getsym (some d) (pos n) true ≡ found widen_sym ec (get_elem? d.d_buf n)
  unfolding gelf_getsym
  gelf_getsym-IsTable =
      get_entry-IsTable t_sym widen_sym store_sym d n ec cls table (msize-sym ec cls) int

  gelf_update_sym-stored :
      (gs : Sym)
      → gelf_update_sym (some d) (pos n) (some gs)
        ≡ stored store_sym d n gs ec (get_elem? d.d_buf n)
  unfolding gelf_update_sym
  gelf_update_sym-stored gs =
      update_entry-IsTable t_sym widen_sym store_sym d n ec cls table (msize-sym ec cls) int gs

  -- On a symbol table `gelf_update_sym` replaces the symbol of a 64-bit object. In a 32-bit object it
  -- assigns the name, the information, the other byte and the section, and the value if it fits 32
  -- bits, and the size if the value and the size both fit; it keeps what it does not assign, and
  -- fails with RANGE where it keeps something. At every index past the last symbol it fails with
  -- ARGUMENT and changes nothing.
  pub gelf_update_sym-IsTable :
      (gs : Sym)
      → gelf_update_sym (some d) (pos n) (some gs) ≡ updated d n gs ec (get_elem? d.d_buf n)
  gelf_update_sym-IsTable gs =
      gelf_update_sym-stored gs ∙ stored-updated d n gs ec cls (get_elem? d.d_buf n)

-- On the symbol table of a 32-bit object `gelf_update_sym` succeeds exactly when there is a symbol at
-- the index and both the value and the size fit 32 bits.
pub gelf_update_sym-ok_iff :
    (d : LibelfData Sym) (n : ℕ) (gs : Sym)
    → IsTable t_sym class_32 d
    → n < 2 ^ 31
    → ((gelf_update_sym (some d) (pos n) (some gs)).0 ≡ ok tt)
      ↔ ((n < length d.d_buf) × (gs.st_value < 2 ^ 32) × (gs.st_size < 2 ^ 32))
unfolding store_sym
gelf_update_sym-ok_iff d n gs table int =
    rw (gelf_update_sym-stored d n class_32 (inl refl) table int gs)
      (elim (Option-cases (get_elem? d.d_buf n)) [
        | inl missing ↦ (
          λ e. ground (arith, missing),
          λ h. ground (arith, missing, get_elem?-ge d.d_buf n missing),
        )
        | inr (old, there) ↦
            (λ e. ground (arith, there, get_elem?-lt d.d_buf n there), λ h. ground (arith, there))
      ])

-- `gelf_update_sym` keeps a symbol table consistent and touches no other symbol, whatever its outcome.
pub gelf_update_sym-keeps :
    (d d' : LibelfData Sym) (n : ℕ) (ec : ElfClass) (gs : Option Sym) (r : Result (Unit {0}))
    → IsTable t_sym ec d
    → gelf_update_sym (some d) (pos n) gs ≡ (r, some d')
    → IsTable t_sym ec d' × ((j : ℕ) → n ≢ j → get_elem? d'.d_buf j ≡ get_elem? d.d_buf j)
unfolding gelf_update_sym
gelf_update_sym-keeps d d' n ec gs r h e =
    let frame = update_entry-Frame t_sym widen_sym store_sym d d' (pos n) gs r e in
    (IsTable-Frame t_sym widen_sym store_sym n d d' ec frame h, frame.others)

pub gelf_update_sym-d_type :
    (d d' : LibelfData Sym) (ndx : ℤ) (gs : Option Sym) (r : Result (Unit {0}))
    → gelf_update_sym (some d) ndx gs ≡ (r, some d')
    → d'.d_type ≡ d.d_type
unfolding gelf_update_sym
gelf_update_sym-d_type d d' ndx gs r e =
    let frame = update_entry-Frame t_sym widen_sym store_sym d d' ndx gs r e in frame.type
