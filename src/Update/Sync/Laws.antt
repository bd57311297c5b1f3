-- ===== src/Update/Sync/Laws.antt =====
-- libelf/elf_update.c: what follows from the success of a step, and of an insertion.
use elftoolchain_libelf.Base.{ℕ, ◌+◌, ◌^◌, ◌≤◌, ◌<◌, ◌≡◌, refl, sym, ap, ◌⊎◌, inl, inr, List, arith}
use elftoolchain_libelf.Base.Outcome.{Result, ok, err, fault, Malloc}
use elftoolchain_libelf.Update.Extent.{ElfExtent, Extent, insert_extent}
use elftoolchain_libelf.Update.Sync.{Sync, M, continue, insert, inserted, add_off, roundup_off}

-- A routine that succeeds has passed its first step.
pub continue-ok :
    {A B : Type 0} (r : Result A × Sync) (f : A → M B) {b : B} {s' : Sync}
    → continue f r ≡ (ok b, s')
    → (a : A) × (r ≡ (ok a, r.1)) × (f a r.1 ≡ (ok b, s'))
continue-ok (ok a, s) f h = (a, refl, h)
continue-ok (err c, s) f h = ground (arith, h)
continue-ok (fault, s) f h = ground (arith, h)

-- The steps that do not touch the list of extents.
pub pure-ok :
    {A : Type 0} (r : Result A) (s : Sync) {a : A} {s' : Sync}
    → ◌≡◌ {A = Result A × Sync} (r, s) (ok a, s')
    → (r ≡ ok a) × (s ≡ s')
pure-ok r s h = (ap (λ p. p.0) h, ap (λ p. p.1) h)

inserted-ok :
    (s s' : Sync) (r : Result (List Extent)) {u : Unit {0}}
    → inserted s r ≡ (ok u, s')
    → (r ≡ ok s'.extents) × (s'.elf ≡ s.elf)
unfolding inserted
inserted-ok s s' (ok es) h = (ap (λ p. ok (p.1).extents) h, sym (ap (λ p. (p.1).elf) h))
inserted-ok s s' (err c) h = ground (arith, h)
inserted-ok s s' fault h = ground (arith, h)

pub insert-ok :
    (type : ElfExtent) (start size desc : ℕ) (mem : Malloc) (s s' : Sync) {u : Unit {0}}
    → insert type start size desc mem s ≡ (ok u, s')
    → (insert_extent s.extents type start size desc mem ≡ ok s'.extents) × (s'.elf ≡ s.elf)
unfolding insert
insert-ok type start size desc mem s s' h =
    inserted-ok s s' (insert_extent s.extents type start size desc mem) h

pub add_off-ok : (a b c : ℕ) → add_off a b ≡ ok c → a + b < 2 ^ 63 → c ≡ a + b
unfolding add_off
add_off-ok a b c h fits = ground (arith, h)

-- Rounding up to an alignment of the header tables.
pub roundup_off-ok : (x y c : ℕ) → (y ≡ 4) ⊎ (y ≡ 8) → roundup_off x y ≡ ok c → x ≤ c
unfolding roundup_off add_off
roundup_off-ok x y c (inl four) h = ground (arith, h, four)
roundup_off-ok x y c (inr eight) h = ground (arith, h, eight)
