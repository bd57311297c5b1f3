-- ===== src/Update/Image.antt =====
-- libelf/elf_update.c: what a list of extents says about the file, and how an insertion changes it.
use mathlib.Core.List.{Perm, perm_middle}
use mathlib.Core.Path.{subst}
use elftoolchain_libelf.Base.{ℕ, ◌+◌, ◌^◌, ◌≤◌, ◌<◌, ◌≡◌, sym, List, [], ◌∷◌, ◌++◌, All, arith}
use elftoolchain_libelf.Base.Outcome.{ok, Malloc}
use elftoolchain_libelf.Update.Extent.{ElfExtent, Extent, insert_extent}
use elftoolchain_libelf.Update.Extent.Order.{new_extent}
use elftoolchain_libelf.Update.Extent.Layout.{
  IsLaidOut, insert_extent-IsLaidOut, insert_extent-splits,
}

-- Every extent ends at or before `rc`.
abbrev pub EndsBy : (rc : ℕ) → List Extent → Type 0
EndsBy rc es = All (λ t. t.ex_start + t.ex_size ≤ rc) es

-- Every extent ends at an offset that fits a signed off_t.
abbrev pub Fits : List Extent → Type 0
Fits es = All (λ t. t.ex_start + t.ex_size < 2 ^ 63) es

-- If the extents fit an off_t, then they are in order and apart, and end by `rc`.
pub record IsImage (rc : ℕ) (es : List Extent) : Type 0 where
  pub laid_out : Fits es → IsLaidOut 0 es
  pub ends : Fits es → EndsBy rc es

All-split {ℓ κ} :
    {A : Type ℓ} (P : A → Type κ) (pre post : List A) (x : A)
    → All P (pre ++ (x ∷ post))
    → P x × All P (pre ++ post)
All-split P [] post x h = h
All-split P (y ∷ pre) post x h = let (hx, rest) = All-split P pre post x h.1 in (hx, (h.0, rest))

All-insert {ℓ κ} :
    {A : Type ℓ} (P : A → Type κ) (pre post : List A) (x : A)
    → P x
    → All P (pre ++ post)
    → All P (pre ++ (x ∷ post))
All-insert P [] post x hx h = (hx, h)
All-insert P (y ∷ pre) post x hx h = (h.0, All-insert P pre post x hx h.1)

EndsBy-mono : (es : List Extent) (rc rc' : ℕ) → rc ≤ rc' → EndsBy rc es → EndsBy rc' es
EndsBy-mono [] rc rc' le h = tt
EndsBy-mono (t ∷ ts) rc rc' le h = (omega arith, EndsBy-mono ts rc rc' le h.1)

module _ (es es' : List Extent) (type : ElfExtent) (start size desc : ℕ) (mem : Malloc)
    (inserted : insert_extent es type start size desc mem ≡ ok es') where
  insert_extent-Fits : Fits es' → (start + size < 2 ^ 63) × Fits es
  insert_extent-Fits fits =
      let (pre, post, cut, joined) =
        insert_extent-splits es type start size desc mem es' inserted in
      rw cut (
        All-split (λ t. t.ex_start + t.ex_size < 2 ^ 63) pre post (new_extent type start size desc)
          (rw joined at fits))

  insert_extent-EndsBy : (rc : ℕ) → start + size ≤ rc → EndsBy rc es → EndsBy rc es'
  insert_extent-EndsBy rc le h =
      let (pre, post, cut, joined) =
        insert_extent-splits es type start size desc mem es' inserted in
      rw joined (
        All-insert (λ t. t.ex_start + t.ex_size ≤ rc) pre post (new_extent type start size desc) le
          (rw cut at h))

  pub insert_extent-IsImage :
      (rc rc' : ℕ)
      → (start + size < 2 ^ 63 → (rc ≤ rc') × (start + size ≤ rc'))
      → IsImage rc es
      → IsImage rc' es'
  insert_extent-IsImage rc rc' covers image = record {
    laid_out = λ fits.
        let (here, before) = insert_extent-Fits fits in
        insert_extent-IsLaidOut es type start size desc mem es' (image.laid_out before)
          (omega arith) inserted;
    ends = λ fits.
        let (here, before) = insert_extent-Fits fits in
        insert_extent-EndsBy rc' (covers here).1
          (EndsBy-mono es rc rc' (covers here).0 (image.ends before));
  }

  -- Up to order, an insertion adds the extent.
  pub insert_extent-perm : Perm es' (new_extent type start size desc ∷ es)
  insert_extent-perm =
      let (pre, post, cut, joined) =
        insert_extent-splits es type start size desc mem es' inserted in
      let x = new_extent type start size desc in
      subst (λ l. Perm l (x ∷ es)) (sym joined)
        (subst (λ l. Perm (pre ++ (x ∷ post)) (x ∷ l)) (sym cut) (perm_middle pre post))
