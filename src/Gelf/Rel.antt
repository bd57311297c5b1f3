-- ===== src/Gelf/Rel.antt =====
-- libelf/gelf_rel.c: relocations without an addend.
use elftoolchain_libelf.Base.{
  ℕ, ◌%◌, ◌^◌, ◌<◌, ◌≡◌, refl, ap, inl, inr, true, Option, none, some, Bool, length, set,
  get_elem?_total, get_elem?-set_self, arith,
}
use elftoolchain_libelf.Base.Int.{ℤ, pos}
use elftoolchain_libelf.Base.Outcome.{Result, ok}
use elftoolchain_libelf.Format.Types.{ElfClass, class_32, t_rel, ev_current}
use elftoolchain_libelf.Format.Size.{msize}
use elftoolchain_libelf.Gelf.Entry.{LibelfData, Stored, get_entry, update_entry}
use elftoolchain_libelf.Gelf.Entry.Laws.{get_entry-update}
use elftoolchain_libelf.Gelf.Entry.Table.{
  IsElfClass, IsTable, IsEntrySize, get_entry-IsTable, update_entry-IsTable, IsTable-set,
}
use elftoolchain_libelf.Gelf.Member.{
  copy_u32, copy_info, widen_info, elf64_r_sym, elf64_r_type, elf64_r_info,
}

-- Elf32_Rel and Elf64_Rel
pub record Rel : Type 0 where
  pub r_offset : ℕ
  pub r_info : ℕ

unfoldable pub widen_rel : Rel → Rel
unfolding widen_info
widen_rel r = record r { r_info = widen_info r.r_info }

-- The assignments to an Elf32_Rel in `gelf_update_rel`.
unfoldable pub store_rel : Rel → Rel → Stored Rel
unfolding copy_u32 copy_info
store_rel dr old = copy_u32 dr.r_offset old λ v.
    let placed = record old { r_offset = v } in
    copy_info dr.r_info placed λ i. (record placed { r_info = i }, none)

unfoldable pub gelf_getrel : Option (LibelfData Rel) → ℤ → (dst : Bool) → Result Rel
unfolding get_entry
gelf_getrel ed ndx dst = get_entry t_rel widen_rel ed ndx dst

unfoldable pub gelf_update_rel :
    Option (LibelfData Rel) → ℤ → Option Rel → Result (Unit {0}) × Option (LibelfData Rel)
unfolding update_entry store_rel
gelf_update_rel ed ndx gs = update_entry t_rel store_rel ed ndx gs

store_rel-Undoes :
    (new old : Rel)
    → elf64_r_sym new.r_info < 2 ^ 24
    → (store_rel new old).1 ≡ none
    → widen_rel (store_rel new old).0 ≡ new
unfolding store_rel widen_rel
store_rel-Undoes new old k h = ground arith

-- What a successful `gelf_update_rel` wrote is what `gelf_getrel` returns, in either class,
-- for a symbol index below 2 ^ 24.
pub gelf_getrel-update_rel :
    (d d' : LibelfData Rel) (ndx : ℤ) (gs : Rel)
    → elf64_r_sym gs.r_info < 2 ^ 24
    → gelf_update_rel (some d) ndx (some gs) ≡ (ok tt, some d')
    → gelf_getrel (some d') ndx true ≡ ok gs
unfolding gelf_update_rel gelf_getrel
gelf_getrel-update_rel d d' ndx gs k h =
    get_entry-update t_rel widen_rel store_rel d d' ndx gs (λ old e. store_rel-Undoes gs old k e) h

msize-rel : (ec : ElfClass) → IsElfClass ec → IsEntrySize (msize t_rel ec ev_current)
unfolding msize
msize-rel ec (inl e) = ground arith
msize-rel ec (inr e) = ground arith

-- The relocation that a 32-bit object holds in place of `dr`: its symbol index modulo 2 ^ 24.
abbrev pub wrapped_rel : Rel → Rel
wrapped_rel dr = record dr {
  r_info = elf64_r_info (elf64_r_sym dr.r_info % 2 ^ 24) (elf64_r_type dr.r_info);
}

store_rel-wraps :
    (dr old : Rel)
    → dr.r_offset < 2 ^ 32
    → dr.r_info < 2 ^ 64
    → elf64_r_type dr.r_info < 2 ^ 8
    → ((store_rel dr old).1 ≡ none) × (widen_rel (store_rel dr old).0 ≡ wrapped_rel dr)
unfolding store_rel widen_rel
store_rel-wraps dr old h i k = ground arith

-- In a 32-bit object `gelf_update_rel` takes every symbol index, also one that does not fit the 24
-- bits of `r_info`, and what it leaves for `gelf_getrel` is the index modulo 2 ^ 24.
pub gelf_update_rel-wraps :
    (d : LibelfData Rel) (n : ℕ) (dr : Rel)
    → IsTable t_rel class_32 d
    → n < 2 ^ 31
    → n < length d.d_buf
    → dr.r_offset < 2 ^ 32
    → dr.r_info < 2 ^ 64
    → elf64_r_type dr.r_info < 2 ^ 8
    → (d' : LibelfData Rel) × (gelf_update_rel (some d) (pos n) (some dr) ≡ (ok tt, some d'))
      × (gelf_getrel (some d') (pos n) true ≡ ok (wrapped_rel dr))
unfolding gelf_update_rel gelf_getrel
gelf_update_rel-wraps d n dr table int inside h i k =
    let (old, there) = get_elem?_total d.d_buf n inside in
    let (complete, kept) = store_rel-wraps dr old h i k in
    let size = msize-rel class_32 (inl refl) in
    let d' : LibelfData Rel = record d { d_buf = set d.d_buf n (store_rel dr old).0 } in
    (
      d',
      rw (
        update_entry-IsTable t_rel widen_rel store_rel d n class_32 (inl refl) table size int dr,
        there,
        complete,
      ),
      rw
          (
            get_entry-IsTable t_rel widen_rel store_rel d' n class_32 (inl refl)
                (IsTable-set d n (store_rel dr old).0 table) size int,
            get_elem?-set_self d.d_buf n (store_rel dr old).0 inside,
          )
          (ap ok kept),
    )
