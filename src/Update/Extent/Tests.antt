-- ===== src/Update/Extent/Tests.antt =====
-- Runs of `_libelf_insert_extent`, and its theorems at concrete lists.
use elftoolchain_libelf.Base.{◌≡◌, refl, ◌↔◌, List, [], ◌∷◌, All, arith}
use elftoolchain_libelf.Base.Outcome.{ok, err, layout, resource, granted, denied}
use elftoolchain_libelf.Update.Extent.{Extent, ehdr, section, shdr, insert_extent}
use elftoolchain_libelf.Update.Extent.Order.{place, from_option, new_extent, insert_extent-place}
use elftoolchain_libelf.Update.Extent.Layout.{
  IsLaidOut, IsApart, insert_extent-IsLaidOut, insert_extent-ok_iff,
}

-- An executable header and a section header table, with a gap between them.
abbrev header_and_table : List Extent
header_and_table = new_extent ehdr 0 64 1 ∷ new_extent shdr 128 64 0 ∷ []

abbrev with_section : List Extent
with_section = new_extent ehdr 0 64 1 ∷ new_extent section 64 16 7 ∷ new_extent shdr 128 64 0 ∷ []

insert_in_gap : insert_extent header_and_table section 64 16 7 granted ≡ ok with_section
unfolding insert_extent
insert_in_gap = refl

insert_overlap : insert_extent header_and_table section 60 16 7 granted ≡ err layout
unfolding insert_extent
insert_overlap = refl

insert_no_memory : insert_extent header_and_table section 64 16 7 (denied 12) ≡ err (resource 12)
unfolding insert_extent
insert_no_memory = refl

-- An extent whose end wraps past 2 ^ 64 is taken, though it overlaps nothing only by the wrap.
insert_wrapped :
    insert_extent (new_extent ehdr 0 64 1 ∷ []) section 0xffff_ffff_ffff_ff00 0x200 7 granted
    ≡ ok (new_extent ehdr 0 64 1 ∷ new_extent section 0xffff_ffff_ffff_ff00 0x200 7 ∷ [])
unfolding insert_extent
insert_wrapped = refl

insert_extent-place_example :
    insert_extent header_and_table section 64 16 7 granted
    ≡ from_option (place header_and_table (new_extent section 64 16 7))
insert_extent-place_example = insert_extent-place header_and_table section 64 16 7

insert_extent-IsLaidOut_example : IsLaidOut 0 with_section
insert_extent-IsLaidOut_example =
    insert_extent-IsLaidOut header_and_table section 64 16 7 granted with_section (omega arith)
      (omega arith) insert_in_gap

insert_extent-ok_iff_example :
    ((es' : List Extent) × (insert_extent header_and_table section 64 16 7 granted ≡ ok es'))
    ↔ All (IsApart 64 16) header_and_table
insert_extent-ok_iff_example =
    insert_extent-ok_iff header_and_table section 64 16 7 (omega arith) (omega arith)
