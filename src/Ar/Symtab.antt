-- ===== src/Ar/Symtab.antt =====
-- libelf/libelf_ar.c: the symbol tables of archives.
pub mod Entries
pub mod Safe
use elftoolchain_libelf.Base.{
  ℕ, zero, suc, ◌+◌, ◌-◌, ◌*◌, ◌/◌, ◌%◌, ◌^◌, ◌<◌, ◌≤◌, ◌≡◌, refl, ap, ◌⊎◌, inl, inr, Bool, true,
  false, not, ◌||◌, Option, none, some, List, [], ◌∷◌, ◌++◌, length, get_elem?, drop, leb, ltb,
  ◌==◌, if◌then◌else◌, All, Bool-cases, leb→le, arith,
}
use elftoolchain_libelf.Base.Outcome.{
  ErrorCode, archive, resource, Result, ok, err, fault, ◌>>=◌, Malloc, granted, denied, bind-ok,
}
use elftoolchain_libelf.Hash.{elf_hash}

-- Elf_Arsym; `as_name` points into the file, and is NULL in the last entry.
pub record Arsym : Type 0 where
  pub as_off : ℕ
  pub as_hash : ℕ
  pub as_name : Option ℕ

-- What these functions read of an archive's descriptor.
pub record Table : Type 0 where
  pub e_rawfile : List ℕ
  pub e_rawsymtab : ℕ
  pub e_rawsymtabsz : ℕ

-- A byte of the file.
unfoldable pub byte_at : List ℕ → ℕ → Result ℕ
byte_at file i = elim (get_elem? file i) [ none ↦ fault | some b ↦ ok b ]

-- GET_WORD: four bytes, the most significant first.
unfoldable pub get_word : List ℕ → (p : ℕ) → Result ℕ
unfolding byte_at
get_word file p = do
  a ← byte_at file p
  b ← byte_at file (p + 1)
  c ← byte_at file (p + 2)
  d ← byte_at file (p + 3)
  ok (((a * 2 ^ 8 + b) * 2 ^ 8 + c) * 2 ^ 8 + d)

-- The bytes in front of the first NUL. A string without one is read past the end of the file.
unfoldable pub c_string : List ℕ → Result (List ℕ)
c_string [] = fault
c_string (c ∷ s) = let rest = c_string s in if c == 0 then ok [] else (rest >>= λ t. ok (c ∷ t))

-- `elf_hash` of the string at `s`
unfoldable pub hash_at : List ℕ → (s : ℕ) → Result ℕ
unfolding c_string
hash_at file s = c_string (drop s file) >>= λ t. ok (elf_hash t)

-- for (; s < end && *s++ != '\0';), on the bytes from `s` on and with `left` of them in front of `end`
skip_string : List ℕ → (left s : ℕ) → Result ℕ
skip_string bytes zero s = ok s
skip_string [] (suc left) s = fault
skip_string (c ∷ bytes) (suc left) s =
    let rest = skip_string bytes left (s + 1) in if c == 0 then ok (s + 1) else rest

abbrev pub sentinel : Arsym
sentinel = record { as_off = 0; as_hash = 2 ^ 64 - 1; as_name = none }

-- The entry for the name at `s` with the offset `off`, and the place of the name after it.
named_symbol : List ℕ → (end s off : ℕ) → Result (Arsym × ℕ)
unfolding hash_at skip_string
named_symbol file end s off =
    if leb (length file) off
    then err archive
    else (hash_at file s >>= λ hash. skip_string (drop s file) (end - s) s >>= λ s'.
        ok (record { as_off = off; as_hash = hash; as_name = some s }, s'))

-- One round of the loop: the next name is at `s`, and the next offset at `p`.
read_symbol : List ℕ → (end s p : ℕ) → Result (Arsym × ℕ)
unfolding get_word named_symbol
read_symbol file end s p =
    if leb end s then err archive else (get_word file p >>= λ off. named_symbol file end s off)

-- The loop, for `n` symbols.
unfoldable pub read_symbols : List ℕ → (end n s p : ℕ) → Result (List Arsym)
unfolding read_symbol
read_symbols file end zero s p = ok (sentinel ∷ [])
read_symbols file end (suc n) s p = read_symbol file end s p >>= λ (sym, s').
    read_symbols file end n s' (p + 4) >>= λ rest. ok (sym ∷ rest)

-- What follows the check of the count.
read_table : Table → (nentries : ℕ) → Malloc → Result (List Arsym × ℕ)
unfolding read_symbols
read_table e nentries (denied errno) = err (resource 0)
read_table e nentries granted = do
  let end = e.e_rawsymtab + e.e_rawsymtabsz
  let p = e.e_rawsymtab + 4
  symtab ← read_symbols e.e_rawfile end nentries (p + nentries * 4) p
  ok (symtab, nentries + 1)

check_count : Table → Malloc → (nentries : ℕ) → Result (List Arsym × ℕ)
unfolding read_table
check_count e mem nentries =
    if (nentries == 0) || leb e.e_rawsymtabsz (4 + nentries * 4)
    then err archive
    else read_table e nentries mem

-- `_libelf_ar_process_svr4_symtab`: the table with its last entry, and the value of `*count`, which are
-- also what it remembers in the descriptor. `mem` is what its `malloc` answers.
unfoldable pub process_svr4_symtab : Table → (mem : Malloc) → Result (List Arsym × ℕ)
unfolding get_word check_count
process_svr4_symtab e mem =
    if ltb e.e_rawsymtabsz 4
    then err archive
    else (get_word e.e_rawfile e.e_rawsymtab >>= λ nentries. check_count e mem nentries)
