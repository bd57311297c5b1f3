-- ===== src/Ar/Symtab/Safe.antt =====
-- libelf/libelf_ar.c: an SVR4 symbol table that lies in the file, and ends with a NUL, is read without
-- leaving the file.
use elftoolchain_libelf.Base.{
  ℕ, zero, suc, ◌+◌, ◌-◌, ◌*◌, ◌<◌, ◌≤◌, ◌≡◌, ◌≢◌, refl, ap, ◌∙◌, inl, inr, ◌||◌, some, List, [],
  ◌∷◌, length, get_elem?, drop, leb, ltb, ◌==◌, Bool-cases, get_elem?_total, arith,
}
use elftoolchain_libelf.Base.Outcome.{
  archive, fault, Malloc, granted, denied, bind-IsSafe, guard-IsSafe, ok-IsSafe, IsSafe,
}
use elftoolchain_libelf.Ar.Symtab.{
  Table, byte_at, get_word, c_string, hash_at, skip_string, named_symbol, read_symbol, read_symbols,
  read_table, check_count, process_svr4_symtab,
}

get_elem?-drop : (n i : ℕ) (bytes : List ℕ) → get_elem? (drop n bytes) i ≡ get_elem? bytes (n + i)
get_elem?-drop zero i bytes = ap (get_elem? bytes) (omega arith)
get_elem?-drop (suc n) i [] = refl
get_elem?-drop (suc n) i (c ∷ bytes) =
    let next : suc n + i ≡ suc (n + i) = omega arith in rw next (get_elem?-drop n i bytes)

byte_at-IsSafe : (file : List ℕ) (i : ℕ) → i < length file → IsSafe (byte_at file i)
unfolding byte_at
byte_at-IsSafe file i h = let (b, there) = get_elem?_total file i h in λ e. ground (arith, e, there)

get_word-IsSafe : (file : List ℕ) (p : ℕ) → p + 4 ≤ length file → IsSafe (get_word file p)
unfolding get_word
get_word-IsSafe file p h =
    bind-IsSafe (byte_at file p) (byte_at-IsSafe file p (omega (arith, h))) λ a _.
      bind-IsSafe (byte_at file (p + 1)) (byte_at-IsSafe file (p + 1) (omega (arith, h))) λ b _.
        bind-IsSafe (byte_at file (p + 2)) (byte_at-IsSafe file (p + 2) (omega (arith, h))) λ c _.
          bind-IsSafe (byte_at file (p + 3)) (byte_at-IsSafe file (p + 3) (omega (arith, h)))
            λ d _. ok-IsSafe refl

c_string-IsSafe : (bytes : List ℕ) (i : ℕ) → get_elem? bytes i ≡ some 0 → IsSafe (c_string bytes)
unfolding c_string
c_string-IsSafe [] i h = λ e. ground (arith, h)
c_string-IsSafe (c ∷ s) zero h = λ e. ground (arith, e, h)
c_string-IsSafe (c ∷ s) (suc i) h = elim (Bool-cases (c == 0)) [
  | inl nul ↦ λ e. ground (arith, e, nul)
  | inr more ↦ rw more (bind-IsSafe (c_string s) (c_string-IsSafe s i h) λ t _. ok-IsSafe refl)
]

skip_string-IsSafe :
    (bytes : List ℕ) (k s : ℕ) → get_elem? bytes k ≡ some 0 → IsSafe (skip_string bytes (suc k) s)
unfolding skip_string
skip_string-IsSafe [] k s h = λ e. ground (arith, h)
skip_string-IsSafe (c ∷ bytes) zero s h = λ e. ground (arith, e, h)
skip_string-IsSafe (c ∷ bytes) (suc k) s h = elim (Bool-cases (c == 0)) [
  | inl nul ↦ λ e. ground (arith, e, nul)
  | inr more ↦ rw more (skip_string-IsSafe bytes k (s + 1) h)
]

module _ (file : List ℕ) (last : ℕ) (nul : get_elem? file last ≡ some 0)
    (inside : last < length file) where
  at_name : (s : ℕ) → s ≤ last → get_elem? (drop s file) (last - s) ≡ some 0
  at_name s h =
      let e : s + (last - s) ≡ last = omega (arith, h) in
      get_elem?-drop s (last - s) file ∙ rw e nul

  named_symbol-IsSafe : (s off : ℕ) → s < suc last → IsSafe (named_symbol file (suc last) s off)
  unfolding named_symbol hash_at
  named_symbol-IsSafe s off h = guard-IsSafe (leb (length file) off) archive λ _.
      bind-IsSafe (hash_at file s)
        (bind-IsSafe (c_string (drop s file))
          (c_string-IsSafe (drop s file) (last - s) (at_name s (omega (arith, h))))
          (λ t _. ok-IsSafe refl))
        λ hash _.
          bind-IsSafe (skip_string (drop s file) (suc last - s) s)
            (let e : suc last - s ≡ suc (last - s) = omega (arith, h) in
              rw e (skip_string-IsSafe (drop s file) (last - s) s (at_name s (omega (arith, h)))))
            λ s' _. ok-IsSafe refl

  read_symbols-IsSafe :
      (n s p : ℕ) → p + n * 4 ≤ length file → IsSafe (read_symbols file (suc last) n s p)
  unfolding read_symbols read_symbol
  read_symbols-IsSafe zero s p h = ok-IsSafe refl
  read_symbols-IsSafe (suc n) s p h =
      bind-IsSafe (read_symbol file (suc last) s p)
        (guard-IsSafe (leb (suc last) s) archive λ in_table.
          bind-IsSafe (get_word file p) (get_word-IsSafe file p (omega (arith, h)))
            λ off _. named_symbol-IsSafe s off (ground (arith, in_table)))
        λ (entry, s') _.
          bind-IsSafe (read_symbols file (suc last) n s' (p + 4))
            (read_symbols-IsSafe n s' (p + 4) (omega (arith, h))) λ rest _. ok-IsSafe refl

-- A symbol table that lies in the file, and whose last byte is a NUL, is processed without an access
-- outside the file, whatever else it holds.
pub process_svr4_symtab-IsSafe :
    (e : Table) (mem : Malloc) (last : ℕ)
    → e.e_rawsymtab + e.e_rawsymtabsz ≡ suc last
    → last < length e.e_rawfile
    → get_elem? e.e_rawfile last ≡ some 0
    → process_svr4_symtab e mem ≢ fault
unfolding process_svr4_symtab check_count read_table
process_svr4_symtab-IsSafe e mem last end inside nul =
    guard-IsSafe (ltb e.e_rawsymtabsz 4) archive λ word.
      bind-IsSafe (get_word e.e_rawfile e.e_rawsymtab)
        (get_word-IsSafe e.e_rawfile e.e_rawsymtab (ground (arith, word, end, inside)))
        λ n _.
          guard-IsSafe ((n == 0) || leb e.e_rawsymtabsz (4 + n * 4)) archive
            λ fits. table mem n (ground (arith, fits, end, inside))
  where
    table :
        (mem : Malloc) (n : ℕ)
        → e.e_rawsymtab + 4 + n * 4 ≤ length e.e_rawfile
        → IsSafe (read_table e n mem)
    table (denied errno) n h = λ x. ground (arith, x)
    table granted n h = rw end (
        bind-IsSafe
          (read_symbols e.e_rawfile (suc last) n (e.e_rawsymtab + 4 + n * 4) (e.e_rawsymtab + 4))
          (read_symbols-IsSafe e.e_rawfile last nul inside n (e.e_rawsymtab + 4 + n * 4)
            (e.e_rawsymtab + 4) h)
          λ symtab _. ok-IsSafe refl)
