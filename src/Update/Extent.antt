-- ===== src/Update/Extent.antt =====
-- libelf/elf_update.c: the list of the regions of the output file, kept in ascending order.
pub mod Order
pub mod Layout
mod Tests
use elftoolchain_libelf.Base.{
  ℕ, zero, suc, ◌+◌, ◌%◌, ◌^◌, Option, none, some, List, [], ◌∷◌, leb, if◌then◌else◌,
}
use elftoolchain_libelf.Base.Outcome.{Result, ok, err, layout, resource, Malloc, granted, denied}

-- enum elf_extent
pub data ElfExtent : Type 0 where
  ehdr phdr section shdr : ElfExtent

-- struct _Elf_Extent; `ex_next` is the list. A pointer `ex_desc` is a number, 0 for NULL.
pub record Extent : Type 0 where
  pub ex_start : ℕ
  pub ex_size : ℕ
  pub ex_type : ElfExtent
  pub ex_desc : ℕ

-- A sum of two uint64_t values.
abbrev pub add64 : ℕ → ℕ → ℕ
add64 a b = (a + b) % 2 ^ 64

-- The loop of `_libelf_extent_is_unused`. A pointer into the list is the number of the nodes in
-- front of the one that it points to: `i` is that of `t`, and `pt` is the variable of that name.
scan_extents : List Extent → (start smax i : ℕ) → (pt : Option ℕ) → Option (Option ℕ)
scan_extents [] start smax i pt = some pt
scan_extents (t ∷ ts) start smax i pt =
    let rest = scan_extents ts start smax (i + 1) (some i) in
    if leb (add64 t.ex_start t.ex_size) start
    then rest
    else if leb smax t.ex_start
    then some pt
    else none

-- `none` is the return value 0; `some prevt` is 1, with `*prevt` set.
extent_is_unused : List Extent → (start size : ℕ) → Option (Option ℕ)
unfolding scan_extents
extent_is_unused extents start size = scan_extents extents start (add64 start size) 0 none

-- SLIST_INSERT_AFTER, with the number of the nodes in front of `prevt`
insert_after : List Extent → ℕ → Extent → List Extent
insert_after [] i ex = ex ∷ []
insert_after (t ∷ ts) zero ex = t ∷ ex ∷ ts
insert_after (t ∷ ts) (suc i) ex = t ∷ insert_after ts i ex

-- SLIST_INSERT_AFTER, or SLIST_INSERT_HEAD if `prevt` is NULL
insert_at : List Extent → Option ℕ → Extent → List Extent
unfolding insert_after
insert_at extents none ex = ex ∷ extents
insert_at extents (some i) ex = insert_after extents i ex

-- `_libelf_insert_extent` past its check, whose answer comes last.
insert_unused : List Extent → Extent → Malloc → Option (Option ℕ) → Result (List Extent)
unfolding insert_at
insert_unused extents ex mem none = err layout
insert_unused extents ex (denied errno) (some prevt) = err (resource errno)
insert_unused extents ex granted (some prevt) = ok (insert_at extents prevt ex)

-- `_libelf_insert_extent`; `mem` is what its `malloc` answers.
unfoldable pub insert_extent :
    List Extent → ElfExtent → (start size desc : ℕ) → (mem : Malloc) → Result (List Extent)
unfolding extent_is_unused insert_unused
insert_extent extents type start size desc mem =
    insert_unused extents
      (record { ex_start = start; ex_size = size; ex_type = type; ex_desc = desc }) mem
      (extent_is_unused extents start size)
