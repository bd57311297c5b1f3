-- ===== src/Gelf/Dyn.antt =====
-- libelf/gelf_dyn.c: entries of the dynamic section.
use elftoolchain_libelf.Base.{ℕ, ◌≡◌, true, Option, none, some, Bool, arith}
use elftoolchain_libelf.Base.Int.{ℤ}
use elftoolchain_libelf.Base.Outcome.{Result, ok}
use elftoolchain_libelf.Format.Types.{t_dyn}
use elftoolchain_libelf.Gelf.Entry.{LibelfData, Stored, get_entry, update_entry}
use elftoolchain_libelf.Gelf.Entry.Laws.{get_entry-update}
use elftoolchain_libelf.Gelf.Member.{copy_u32, copy_s32}

-- Elf32_Dyn and Elf64_Dyn
pub record Dyn : Type 0 where
  pub d_tag : ℤ
  pub d_val : ℕ

abbrev pub widen_dyn : Dyn → Dyn
widen_dyn r = r

-- The assignments to an Elf32_Dyn in `gelf_update_dyn`.
unfoldable pub store_dyn : Dyn → Dyn → Stored Dyn
unfolding copy_u32 copy_s32
store_dyn ds old = copy_s32 ds.d_tag old λ t.
    let tagged = record old { d_tag = t } in
    copy_u32 ds.d_val tagged λ v. (record tagged { d_val = v }, none)

unfoldable pub gelf_getdyn : Option (LibelfData Dyn) → ℤ → (dst : Bool) → Result Dyn
unfolding get_entry
gelf_getdyn ed ndx dst = get_entry t_dyn widen_dyn ed ndx dst

unfoldable pub gelf_update_dyn :
    Option (LibelfData Dyn) → ℤ → Option Dyn → Result (Unit {0}) × Option (LibelfData Dyn)
unfolding update_entry store_dyn
gelf_update_dyn ed ndx gs = update_entry t_dyn store_dyn ed ndx gs

store_dyn-Undoes :
    (new old : Dyn) → (store_dyn new old).1 ≡ none → widen_dyn (store_dyn new old).0 ≡ new
unfolding store_dyn
store_dyn-Undoes new old h = ground arith

-- What a successful `gelf_update_dyn` wrote is what `gelf_getdyn` returns, in either class.
pub gelf_getdyn-update_dyn :
    (d d' : LibelfData Dyn) (ndx : ℤ) (gs : Dyn)
    → gelf_update_dyn (some d) ndx (some gs) ≡ (ok tt, some d')
    → gelf_getdyn (some d') ndx true ≡ ok gs
unfolding gelf_update_dyn gelf_getdyn
gelf_getdyn-update_dyn d d' ndx gs h =
    get_entry-update t_dyn widen_dyn store_dyn d d' ndx gs (λ old e. store_dyn-Undoes gs old e) h
