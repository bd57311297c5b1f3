-- ===== src/Ar/BsdSymtab.antt =====
-- libelf/libelf_ar.c: the BSD symbol table of an archive, whose words are values of the host's `long`.
pub mod Entries
use elftoolchain_libelf.Base.{
  ℕ, zero, suc, ◌+◌, ◌*◌, ◌/◌, ◌%◌, ◌^◌, Bool, true, false, not, ◌||◌, Option, none, some, List, [],
  ◌∷◌, length, take, drop, leb, ltb, ◌==◌, if◌then◌else◌,
}
use elftoolchain_libelf.Base.Int.{ℤ, pos, negsuc}
use elftoolchain_libelf.Base.Outcome.{
  Result, ok, err, fault, archive, resource, ◌>>=◌, Malloc, granted, denied,
}
use elftoolchain_libelf.Ar.Symtab.{Arsym, Table, sentinel, hash_at}

-- The host's reading of the 8 bytes of a `long`.
abbrev pub Host : Type 0
Host = List ℕ → ℤ

-- GET_LONG
unfoldable pub get_long : Host → List ℕ → (p : ℕ) → Result ℤ
get_long host file p = if ltb (length file) (p + 8) then fault else ok (host (take 8 (drop p file)))

-- A value that is not negative, or the jump to `symtaberror`.
natural : ℤ → Result ℕ
natural (pos n) = ok n
natural (negsuc n) = err archive

-- The entry for a name at `s0 + stroffset` and a member at `fileoffset`.
bsd_entry : List ℕ → (end s0 : ℕ) → (stroffset fileoffset : ℕ) → Result Arsym
bsd_entry file end s0 stroffset fileoffset =
    if leb (length file) fileoffset || leb end (s0 + stroffset)
    then err archive
    else (hash_at file (s0 + stroffset) >>= λ hash.
        ok (record { as_off = fileoffset; as_hash = hash; as_name = some (s0 + stroffset) }))

-- One round of the loop.
bsd_symbol : Host → List ℕ → (end s0 p : ℕ) → Result Arsym
unfolding get_long natural bsd_entry
bsd_symbol host file end s0 p = do
  a ← get_long host file p
  b ← get_long host file (p + 8)
  stroffset ← natural a
  fileoffset ← natural b
  bsd_entry file end s0 stroffset fileoffset

-- The loop, for `n` symbols, and the last entry.
unfoldable pub bsd_symbols : Host → List ℕ → (end s0 n p : ℕ) → Result (List Arsym)
unfolding bsd_symbol
bsd_symbols host file end s0 zero p = ok (sentinel ∷ [])
bsd_symbols host file end s0 (suc n) p = bsd_symbol host file end s0 p >>= λ sym.
    bsd_symbols host file end s0 n (p + 16) >>= λ rest. ok (sym ∷ rest)

-- What follows the checks. `nentries` is an `unsigned int`.
bsd_table : Host → Table → (end s0 arraysize : ℕ) → Malloc → Result (List Arsym × ℕ)
unfolding bsd_symbols
bsd_table host e end s0 arraysize (denied errno) = err (resource 0)
bsd_table host e end s0 arraysize granted =
    let nentries = arraysize / 16 % 2 ^ 32 in
    bsd_symbols host e.e_rawfile end s0 nentries (e.e_rawsymtab + 8) >>= λ symtab.
    ok (symtab, (nentries + 1) % 2 ^ 32)

-- The check of the size of the string table, which is at `s`.
bsd_strings : Host → Table → (end s arraysize : ℕ) → Malloc → Result (List Arsym × ℕ)
unfolding get_long natural bsd_table
bsd_strings host e end s arraysize mem = do
  a ← get_long host e.e_rawfile s
  strtabsize ← natural a
  (if ltb end (s + 8 + strtabsize) then err archive else bsd_table host e end (s + 8) arraysize mem)

-- The check of the size of the array.
bsd_array : Host → Table → (arraysize : ℕ) → Malloc → Result (List Arsym × ℕ)
unfolding bsd_strings
bsd_array host e arraysize mem =
    if leb e.e_rawsymtabsz arraysize || not (arraysize % 16 == 0)
    then err archive
    else bsd_strings host e (e.e_rawsymtab + e.e_rawsymtabsz) (e.e_rawsymtab + 8 + arraysize)
        arraysize mem

-- `_libelf_ar_process_bsd_symtab`: the table with its last entry, and the value of `*count`, which are also
-- what it remembers in the descriptor.
unfoldable pub process_bsd_symtab : Host → Table → (mem : Malloc) → Result (List Arsym × ℕ)
unfolding get_long natural bsd_array
process_bsd_symtab host e mem =
    if ltb e.e_rawsymtabsz 16
    then err archive
    else (get_long host e.e_rawfile e.e_rawsymtab >>= λ a.
        natural a >>= λ arraysize. bsd_array host e arraysize mem)
