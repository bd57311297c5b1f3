-- ===== src/Gelf/Syminfo.antt =====
-- libelf/gelf_syminfo.c: additional symbol information.
use elftoolchain_libelf.Base.{ℕ, ◌≡◌, true, Option, none, some, Bool, arith}
use elftoolchain_libelf.Base.Int.{ℤ}
use elftoolchain_libelf.Base.Outcome.{Result, ok}
use elftoolchain_libelf.Format.Types.{t_syminfo}
use elftoolchain_libelf.Gelf.Entry.{LibelfData, Stored, get_entry, update_entry}
use elftoolchain_libelf.Gelf.Entry.Laws.{get_entry-update}

-- Elf32_Syminfo and Elf64_Syminfo
pub record Syminfo : Type 0 where
  pub si_boundto : ℕ
  pub si_flags : ℕ

abbrev pub widen_syminfo : Syminfo → Syminfo
widen_syminfo r = r

-- The assignments to an Elf32_Syminfo in `gelf_update_syminfo`.
unfoldable pub store_syminfo : Syminfo → Syminfo → Stored Syminfo
store_syminfo gs old = (record old { si_boundto = gs.si_boundto; si_flags = gs.si_flags }, none)

unfoldable pub gelf_getsyminfo : Option (LibelfData Syminfo) → ℤ → (dst : Bool) → Result Syminfo
unfolding get_entry
gelf_getsyminfo ed ndx dst = get_entry t_syminfo widen_syminfo ed ndx dst

unfoldable pub gelf_update_syminfo :
    Option (LibelfData Syminfo)
    → ℤ
    → Option Syminfo
    → Result (Unit {0}) × Option (LibelfData Syminfo)
unfolding update_entry store_syminfo
gelf_update_syminfo ed ndx gs = update_entry t_syminfo store_syminfo ed ndx gs

store_syminfo-Undoes :
    (new old : Syminfo)
    → (store_syminfo new old).1 ≡ none
    → widen_syminfo (store_syminfo new old).0 ≡ new
unfolding store_syminfo
store_syminfo-Undoes new old h = ground arith

-- What a successful `gelf_update_syminfo` wrote is what `gelf_getsyminfo` returns, in either class.
pub gelf_getsyminfo-update_syminfo :
    (d d' : LibelfData Syminfo) (ndx : ℤ) (gs : Syminfo)
    → gelf_update_syminfo (some d) ndx (some gs) ≡ (ok tt, some d')
    → gelf_getsyminfo (some d') ndx true ≡ ok gs
unfolding gelf_update_syminfo gelf_getsyminfo
gelf_getsyminfo-update_syminfo d d' ndx gs h =
    get_entry-update t_syminfo widen_syminfo store_syminfo d d' ndx gs
      (λ old e. store_syminfo-Undoes gs old e) h
