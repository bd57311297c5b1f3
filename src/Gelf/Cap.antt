-- ===== src/Gelf/Cap.antt =====
-- libelf/gelf_cap.c: capabilities.
use elftoolchain_libelf.Base.{ℕ, ◌≡◌, ◌≢◌, false, Option, none, Bool, arith}
use elftoolchain_libelf.Base.Int.{ℤ}
use elftoolchain_libelf.Base.Outcome.{Result, ok}
use elftoolchain_libelf.Format.Types.{t_cap, is_type}
use elftoolchain_libelf.Format.SectionType.{xlate_shtype}
use elftoolchain_libelf.Gelf.Entry.{LibelfData, Stored, get_entry, update_entry}
use elftoolchain_libelf.Gelf.Entry.Laws.{get_entry-ne-ok}
use elftoolchain_libelf.Gelf.Member.{copy_u32}

-- Elf32_Cap and Elf64_Cap
pub record Cap : Type 0 where
  pub c_tag : ℕ
  pub c_val : ℕ

abbrev pub widen_cap : Cap → Cap
widen_cap r = r

-- The assignments to an Elf32_Cap in `gelf_update_cap`.
unfoldable pub store_cap : Cap → Cap → Stored Cap
unfolding copy_u32
store_cap gc old = copy_u32 gc.c_tag old λ t.
    let tagged = record old { c_tag = t } in
    copy_u32 gc.c_val tagged λ v. (record tagged { c_val = v }, none)

unfoldable pub gelf_getcap : Option (LibelfData Cap) → ℤ → (dst : Bool) → Result Cap
unfolding get_entry
gelf_getcap ed ndx dst = get_entry t_cap widen_cap ed ndx dst

unfoldable pub gelf_update_cap :
    Option (LibelfData Cap) → ℤ → Option Cap → Result (Unit {0}) × Option (LibelfData Cap)
unfolding update_entry store_cap
gelf_update_cap ed ndx gs = update_entry t_cap store_cap ed ndx gs

-- No section type has capabilities for its data.
xlate_shtype-cap : (sht : ℕ) → is_type (xlate_shtype sht) t_cap ≡ false
unfolding xlate_shtype
xlate_shtype-cap sht = ground arith

-- `gelf_getcap` returns no capability, whatever the data descriptor and the index.
pub gelf_getcap-never :
    (ed : Option (LibelfData Cap)) (ndx : ℤ) (dst : Bool) (c : Cap) → gelf_getcap ed ndx dst ≢ ok c
unfolding gelf_getcap
gelf_getcap-never ed ndx dst c = get_entry-ne-ok t_cap widen_cap xlate_shtype-cap ed ndx dst c
