-- ===== src/Gelf/Rela.antt =====
-- libelf/gelf_rela.c: relocations with an addend.
use elftoolchain_libelf.Base.{ℕ, ◌^◌, ◌<◌, ◌≡◌, true, Option, none, some, Bool, arith}
use elftoolchain_libelf.Base.Int.{ℤ}
use elftoolchain_libelf.Base.Outcome.{Result, ok}
use elftoolchain_libelf.Format.Types.{t_rela}
use elftoolchain_libelf.Gelf.Entry.{LibelfData, Stored, get_entry, update_entry}
use elftoolchain_libelf.Gelf.Entry.Laws.{get_entry-update}
use elftoolchain_libelf.Gelf.Member.{copy_u32, copy_s32, copy_info, widen_info, elf64_r_sym}

-- Elf32_Rela and Elf64_Rela
pub record Rela : Type 0 where
  pub r_offset : ℕ
  pub r_info : ℕ
  pub r_addend : ℤ

unfoldable pub widen_rela : Rela → Rela
unfolding widen_info
widen_rela r = record r { r_info = widen_info r.r_info }

-- The assignments to an Elf32_Rela in `gelf_update_rela`.
unfoldable pub store_rela : Rela → Rela → Stored Rela
unfolding copy_u32 copy_info copy_s32
store_rela dr old = copy_u32 dr.r_offset old λ v.
    let placed = record old { r_offset = v } in
    copy_info dr.r_info placed λ i.
      let packed = record placed { r_info = i } in
      copy_s32 dr.r_addend packed λ a. (record packed { r_addend = a }, none)

unfoldable pub gelf_getrela : Option (LibelfData Rela) → ℤ → (dst : Bool) → Result Rela
unfolding get_entry
gelf_getrela ed ndx dst = get_entry t_rela widen_rela ed ndx dst

unfoldable pub gelf_update_rela :
    Option (LibelfData Rela) → ℤ → Option Rela → Result (Unit {0}) × Option (LibelfData Rela)
unfolding update_entry store_rela
gelf_update_rela ed ndx gs = update_entry t_rela store_rela ed ndx gs

store_rela-Undoes :
    (new old : Rela)
    → elf64_r_sym new.r_info < 2 ^ 24
    → (store_rela new old).1 ≡ none
    → widen_rela (store_rela new old).0 ≡ new
unfolding store_rela widen_rela
store_rela-Undoes new old k h = ground arith

-- What a successful `gelf_update_rela` wrote is what `gelf_getrela` returns, in either class,
-- for a symbol index below 2 ^ 24.
pub gelf_getrela-update_rela :
    (d d' : LibelfData Rela) (ndx : ℤ) (gs : Rela)
    → elf64_r_sym gs.r_info < 2 ^ 24
    → gelf_update_rela (some d) ndx (some gs) ≡ (ok tt, some d')
    → gelf_getrela (some d') ndx true ≡ ok gs
unfolding gelf_update_rela gelf_getrela
gelf_getrela-update_rela d d' ndx gs k h =
    get_entry-update t_rela widen_rela store_rela d d' ndx gs
      (λ old e. store_rela-Undoes gs old k e) h
