-- ===== src/Update/Extent/Layout.antt =====
-- libelf/elf_update.c: the list that `_libelf_insert_extent` keeps is sorted, without overlaps, and
-- takes every extent that has room.
use elftoolchain_libelf.Base.{
  ℕ, ◌+◌, ◌^◌, ◌≤◌, ◌<◌, ◌≡◌, refl, sym, ap, ◌∙◌, ◌↔◌, ◌⊎◌, inl, inr, Option, none, some, List, [],
  ◌∷◌, ◌++◌, All, leb, Bool-cases, Option-cases, arith,
}
use elftoolchain_libelf.Base.Outcome.{ok, Malloc, granted, denied}
use elftoolchain_libelf.Update.Extent.{ElfExtent, Extent, add64, insert_extent, insert_unused}
use elftoolchain_libelf.Update.Extent.Order.{place, from_option, new_extent, insert_extent-place}

abbrev end_of : Extent → ℕ
end_of t = t.ex_start + t.ex_size

-- Extents in ascending order from `lo` on, none overlapping the next, all below 2 ^ 64.
abbrev pub IsLaidOut : ℕ → List Extent → Type 0
IsLaidOut lo [] = Unit
IsLaidOut lo (t ∷ ts) = (lo ≤ t.ex_start) × (end_of t < 2 ^ 64) × IsLaidOut (end_of t) ts

place-IsLaidOut :
    (es es' : List Extent) (x : Extent) (lo : ℕ)
    → end_of x < 2 ^ 64
    → lo ≤ x.ex_start
    → IsLaidOut lo es
    → place es x ≡ some es'
    → IsLaidOut lo es'
unfolding place
place-IsLaidOut [] es' x lo hx hlo h e = ground arith
place-IsLaidOut (t ∷ ts) es' x lo hx hlo h e = elim (Option-cases (place ts x)) [
  | inl none_left ↦ ground (arith, none_left)
  | inr (r, found) ↦ ground (arith, found, place-IsLaidOut ts r x (end_of t))
]

-- `t` ends at or before `start`, or begins at or after `start + size`.
abbrev pub IsApart : (start size : ℕ) → Extent → Type 0
IsApart start size t = (end_of t ≤ start) ⊎ (start + size ≤ t.ex_start)

-- From `lo` on, everything is apart from what ends at or before `lo`.
above-IsApart :
    (es : List Extent) (start size lo : ℕ)
    → start + size ≤ lo
    → IsLaidOut lo es
    → All (IsApart start size) es
above-IsApart [] start size lo p h = tt
above-IsApart (t ∷ ts) start size lo p h =
    (inr (omega arith), above-IsApart ts start size (end_of t) (omega arith) h.2)

place-IsApart :
    (es es' : List Extent) (x : Extent) (lo : ℕ)
    → end_of x < 2 ^ 64
    → IsLaidOut lo es
    → place es x ≡ some es'
    → All (IsApart x.ex_start x.ex_size) es
unfolding place
place-IsApart [] es' x lo fits h e = tt
place-IsApart (t ∷ ts) es' x lo fits h e = elim (Option-cases (place ts x)) [
  | inl nowhere ↦ ground (arith, nowhere, above-IsApart ts x.ex_start x.ex_size (end_of t))
  | inr (r, found) ↦ ground (
    arith,
    found,
    place-IsApart ts r x (end_of t) fits h.2 found,
    above-IsApart ts x.ex_start x.ex_size (end_of t),
  )
]

IsApart-place :
    (es : List Extent) (x : Extent) (lo : ℕ)
    → end_of x < 2 ^ 64
    → IsLaidOut lo es
    → All (IsApart x.ex_start x.ex_size) es
    → (es' : List Extent) × (place es x ≡ some es')
unfolding place
IsApart-place [] x lo fits h apart = (x ∷ [], refl)
IsApart-place (t ∷ ts) x lo fits h apart =
    let (r, found) = IsApart-place ts x (end_of t) fits h.2 apart.1 in
    elim (Bool-cases (leb (add64 t.ex_start t.ex_size) x.ex_start)) [
      | inl before ↦ (t ∷ r, rw (before, found))
      | inr overlap ↦ (x ∷ t ∷ ts, ground (arith, overlap, apart.0))
    ]

place-splits :
    (es es' : List Extent) (x : Extent)
    → place es x ≡ some es'
    → (pre post : List Extent) × (es ≡ pre ++ post) × (es' ≡ pre ++ (x ∷ post))
unfolding place
place-splits [] es' x e = ([], [], refl, ground arith)
place-splits (t ∷ ts) es' x e = elim (Bool-cases (leb (add64 t.ex_start t.ex_size) x.ex_start)) [
  | inl before ↦ elim (Option-cases (place ts x)) [
    | inl nowhere ↦ ground (arith, before, nowhere)
    | inr (r, found) ↦
        let (pre, post, cut, joined) = place-splits ts r x found in
        (t ∷ pre, post, ap (λ l. t ∷ l) cut, ground (arith, before, found, joined))
  ]
  | inr overlap ↦ ([], t ∷ ts, refl, ground (arith, overlap))
]

from_option-ok : (o : Option (List Extent)) {es : List Extent} → from_option o ≡ ok es → o ≡ some es
unfolding from_option
from_option-ok none h = ground arith
from_option-ok (some es) h = ground arith

insert_unused-granted :
    (es : List Extent) (x : Extent) (mem : Malloc) (q : Option (Option ℕ)) {es' : List Extent}
    → insert_unused es x mem q ≡ ok es'
    → insert_unused es x granted q ≡ ok es'
unfolding insert_unused
insert_unused-granted es x granted q h = h
insert_unused-granted es x (denied n) none h = ground arith
insert_unused-granted es x (denied n) (some p) h = ground arith

module _ (es : List Extent) (type : ElfExtent) (start size desc : ℕ) where
  inserted-place :
      (mem : Malloc) {es' : List Extent}
      → insert_extent es type start size desc mem ≡ ok es'
      → place es (new_extent type start size desc) ≡ some es'
  unfolding insert_extent
  inserted-place mem h = from_option-ok _ (
      sym (insert_extent-place es type start size desc)
      ∙ insert_unused-granted es (new_extent type start size desc) mem _ h)

  -- An insertion that succeeds, of an extent that ends below 2 ^ 64, keeps a list sorted, free of
  -- overlaps and below 2 ^ 64.
  pub insert_extent-IsLaidOut :
      (mem : Malloc) (es' : List Extent)
      → IsLaidOut 0 es
      → start + size < 2 ^ 64
      → insert_extent es type start size desc mem ≡ ok es'
      → IsLaidOut 0 es'
  insert_extent-IsLaidOut mem es' h fits e =
      place-IsLaidOut es es' (new_extent type start size desc) 0 fits (omega arith) h
        (inserted-place mem e)

  -- With memory at hand, an insertion of an extent that ends below 2 ^ 64 into a list that is sorted,
  -- free of overlaps and below 2 ^ 64 succeeds exactly when every extent of the list ends at or
  -- before the new one, or begins at or after its end.
  pub insert_extent-ok_iff :
      IsLaidOut 0 es
      → start + size < 2 ^ 64
      → ((es' : List Extent) × (insert_extent es type start size desc granted ≡ ok es'))
        ↔ All (IsApart start size) es
  unfolding from_option
  insert_extent-ok_iff h fits = (
    λ (es', e).
        place-IsApart es es' (new_extent type start size desc) 0 fits h (inserted-place granted e),
    λ apart.
        let (es', e) = IsApart-place es (new_extent type start size desc) 0 fits h apart in
        (es', insert_extent-place es type start size desc ∙ rw (e, from_option)),
  )

  -- A successful insertion puts the new extent between two parts of the list, and keeps the rest.
  pub insert_extent-splits :
      (mem : Malloc) (es' : List Extent)
      → insert_extent es type start size desc mem ≡ ok es'
      → (pre post : List Extent) × (es ≡ pre ++ post)
        × (es' ≡ pre ++ (new_extent type start size desc ∷ post))
  insert_extent-splits mem es' e =
      place-splits es es' (new_extent type start size desc) (inserted-place mem e)
