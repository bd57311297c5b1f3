-- ===== src/Update/Extent/Order.antt =====
-- libelf/elf_update.c: what `_libelf_insert_extent` does to the list, stated by one recursion.
use elftoolchain_libelf.Base.{
  ℕ, suc, ◌+◌, ◌≡◌, refl, ap, inl, inr, true, Option, none, some, List, [], ◌∷◌, leb, if◌then◌else◌,
  Bool-cases, arith,
}
use elftoolchain_libelf.Base.Outcome.{Result, ok, err, layout, granted}
use elftoolchain_libelf.Update.Extent.{
  ElfExtent, Extent, add64, scan_extents, insert_after, insert_unused, insert_extent,
}
use mathlib.Core.Option

-- The reference: walk past what ends at or before the start of `x`, then the rest must begin at
-- or after its end.
unfoldable pub place : List Extent → Extent → Option (List Extent)
place [] x = some (x ∷ [])
place (t ∷ ts) x =
    let rest = Option.map (λ r. t ∷ r) (place ts x) in
    if leb (add64 t.ex_start t.ex_size) x.ex_start
    then rest
    else if leb (add64 x.ex_start x.ex_size) t.ex_start
    then some (x ∷ t ∷ ts)
    else none

unfoldable pub from_option : Option (List Extent) → Result (List Extent)
from_option none = err layout
from_option (some es) = ok es

abbrev pub new_extent : ElfExtent → (start size desc : ℕ) → Extent
new_extent type start size desc = record {
  ex_start = start;
  ex_size = size;
  ex_type = type;
  ex_desc = desc;
}

-- What the scan of `ts` may answer when it starts at node `i` with `pt`, and the place that this is.
module _ (x : Extent) where
  data Scanned (ts : List Extent) (i : ℕ) (pt : Option ℕ) : Option (Option ℕ) → Type 0 where
    overlap : place ts x ≡ none → Scanned ts i pt none
    at_once : place ts x ≡ some (x ∷ ts) → Scanned ts i pt (some pt)
    later :
        (k : ℕ) {q : Option ℕ}
        → q ≡ some (i + k)
        → place ts x ≡ some (insert_after ts k x)
        → Scanned ts i pt (some q)

  Scanned-step :
      (t : Extent) (ts : List Extent) (i : ℕ) (pt : Option ℕ) {r : Option (Option ℕ)}
      → leb (add64 t.ex_start t.ex_size) x.ex_start ≡ true
      → Scanned ts (i + 1) (some i) r
      → Scanned (t ∷ ts) i pt r
  unfolding place insert_after
  Scanned-step t ts i pt h (overlap p) = overlap (rw (h, p))
  Scanned-step t ts i pt h (at_once p) = later 0 (ap some (omega arith)) (rw (h, p))
  Scanned-step t ts i pt h (later k e p) = later (suc k) (ground arith) (rw (h, p))

  scan_extents-Scanned :
      (ts : List Extent) (i : ℕ) (pt : Option ℕ)
      → Scanned ts i pt (scan_extents ts x.ex_start (add64 x.ex_start x.ex_size) i pt)
  unfolding place scan_extents
  scan_extents-Scanned [] i pt = at_once refl
  scan_extents-Scanned (t ∷ ts) i pt =
      elim (Bool-cases (leb (add64 t.ex_start t.ex_size) x.ex_start)) [
        | inl h ↦ rw h (Scanned-step t ts i pt h (scan_extents-Scanned ts (i + 1) (some i)))
        | inr h ↦ elim (Bool-cases (leb (add64 x.ex_start x.ex_size) t.ex_start)) [
          | inl g ↦ rw (h, g) (at_once (rw (h, g)))
          | inr g ↦ rw (h, g) (overlap (rw (h, g)))
        ]
      ]

insert_unused-Scanned :
    (es : List Extent) (x : Extent) {r : Option (Option ℕ)}
    → Scanned x es 0 none r
    → insert_unused es x granted r ≡ from_option (place es x)
unfolding insert_unused from_option
insert_unused-Scanned es x (overlap p) = rw p
insert_unused-Scanned es x (at_once p) = rw p
insert_unused-Scanned es x (later k e p) =
    rw (p, e) (ap (λ n. ok (insert_after es n x)) (omega arith))

-- With memory at hand, inserting is the reference walk: an error exactly where it fails.
pub insert_extent-place :
    (es : List Extent) (type : ElfExtent) (start size desc : ℕ)
    → insert_extent es type start size desc granted
      ≡ from_option (place es (new_extent type start size desc))
unfolding insert_extent
insert_extent-place es type start size desc =
    insert_unused-Scanned es (new_extent type start size desc)
      (scan_extents-Scanned (new_extent type start size desc) es 0 none)
