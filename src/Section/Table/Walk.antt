-- ===== src/Section/Table/Walk.antt =====
-- libelf/elf_scn.c: the loop `while ((scn = elf_nextscn(e, scn)) != NULL)` of the library's clients.
use elftoolchain_libelf.Base.{
  ℕ, zero, suc, ◌+◌, ◌≤◌, ◌<◌, ◌≡◌, ap, ◌∙◌, Option, none, some, List, [], ◌∷◌, length, lt→ltb,
  le→ltb, arith,
}
use mathlib.Core.Option
use elftoolchain_libelf.Base.Outcome.{Result, ok, err, fault}
use elftoolchain_libelf.State.{Elf, Ehdr}
use elftoolchain_libelf.Header.Ehdr.{Library}
use elftoolchain_libelf.Section.Table.{Answers, elf_getscn, found_scn, elf_nextscn}
use elftoolchain_libelf.Section.Table.Index.{IsReady, IsTable, elf_getscn-ready}

-- The loop after a call, where `rest` is what it sees from the next section on.
walk_on : (rest : Elf → ℕ → Option (List ℕ)) → Result (Option ℕ) × Elf → Option (List ℕ)
walk_on rest (ok none, e) = some []
walk_on rest (ok (some next), e) = Option.map (λ l. next ∷ l) (rest e next)
walk_on rest (err c, e) = none
walk_on rest (fault, e) = none

-- The places of the sections that the loop sees from `scn` on, where NULL is `none`. The loop makes at
-- most `fuel` calls; a failure of a call, which the loop cannot tell from the end, gives `none` here.
pub walk : Library → Answers → (fuel : ℕ) → Elf → (scn : Option ℕ) → Option (List ℕ)
walk lib a zero e scn = none
walk lib a (suc fuel) e scn =
    walk_on (λ e' next. walk lib a fuel e' (some next)) (elf_nextscn lib e scn a)

-- The `n` numbers from `i` on.
abbrev pub from : (i n : ℕ) → List ℕ
from i zero = []
from i (suc n) = i ∷ from (i + 1) n

module _ (lib : Library) (e : Elf) (eh : Ehdr) (a : Answers) (ready : IsReady e eh) where
  elf_nextscn-next :
      (p : ℕ) → p + 1 < length e.e_scn → elf_nextscn lib e (some p) a ≡ (ok (some (p + 1)), e)
  unfolding elf_nextscn
  elf_nextscn-next p lt = rw (ready.elf, lt→ltb _ _ lt)

  elf_nextscn-end : (p : ℕ) → length e.e_scn ≤ p + 1 → elf_nextscn lib e (some p) a ≡ (ok none, e)
  unfolding elf_nextscn
  elf_nextscn-end p le = rw (ready.elf, le→ltb _ _ le)

  elf_nextscn-first : IsTable e → 2 ≤ length e.e_scn → elf_nextscn lib e none a ≡ (ok (some 1), e)
  unfolding elf_nextscn found_scn
  elf_nextscn-first t two =
      let steps : elf_nextscn lib e none a ≡ found_scn (elf_getscn lib e 1 a) = rw ready.elf in
      steps ∙ ap found_scn (elf_getscn-ready lib e eh a 1 ready t (omega arith))

  walk-step :
      (fuel : ℕ) (scn : Option ℕ) (p : ℕ) (l : List ℕ)
      → elf_nextscn lib e scn a ≡ (ok (some p), e)
      → walk lib a fuel e (some p) ≡ some l
      → walk lib a (suc fuel) e scn ≡ some (p ∷ l)
  unfolding walk walk_on
  walk-step fuel scn p l next rest =
      ap (walk_on (λ e' next. walk lib a fuel e' (some next))) next
      ∙ ap (Option.map (λ l. p ∷ l)) rest

  walk-end :
      (fuel : ℕ) (scn : Option ℕ)
      → elf_nextscn lib e scn a ≡ (ok none, e)
      → walk lib a (suc fuel) e scn ≡ some []
  unfolding walk walk_on
  walk-end fuel scn next = ap (walk_on (λ e' next. walk lib a fuel e' (some next))) next

  walk_from :
      (n p fuel : ℕ)
      → p + 1 + n ≡ length e.e_scn
      → n < fuel
      → walk lib a fuel e (some p) ≡ some (from (p + 1) n)
  walk_from zero p zero len lt = absurd (omega arith)
  walk_from zero p (suc fuel) len lt = walk-end fuel (some p) (elf_nextscn-end p (omega arith))
  walk_from (suc n) p zero len lt = absurd (omega arith)
  walk_from (suc n) p (suc fuel) len lt =
      walk-step fuel (some p) (p + 1) (from (p + 1 + 1) n) (elf_nextscn-next p (omega arith))
        (walk_from n (p + 1) fuel (omega arith) (omega arith))

  -- The loop ends after as many calls as there are sections, with the NULL of the last call, and has
  -- seen every section but section 0, once and in order. The object must have at least one section
  -- besides section 0, its header and its section headers, and the indices of its sections must be
  -- their places.
  pub walk-visits :
      (n fuel : ℕ)
      → IsTable e
      → length e.e_scn ≡ n + 2
      → n + 2 ≤ fuel
      → walk lib a fuel e none ≡ some (from 1 (suc n))
  walk-visits n zero t len enough = absurd (omega arith)
  walk-visits n (suc fuel) t len enough =
      walk-step fuel none 1 (from (1 + 1) n) (elf_nextscn-first t (omega arith))
        (walk_from n 1 fuel (omega arith) (omega arith))
