-- ===== src/Ar/Symtab/Entries.antt =====
-- libelf/libelf_ar.c: the entries of an SVR4 symbol table.
use elftoolchain_libelf.Base.{
  ℕ, zero, suc, ◌+◌, ◌-◌, ◌*◌, ◌<◌, ◌≤◌, ◌≡◌, ap, ◌∙◌, some, List, [], ◌∷◌, ◌++◌, length, drop, leb,
  ltb, ◌==◌, ◌||◌, All, if◌then◌else◌, Bool-cases, inl, inr, refl, arith,
}
use elftoolchain_libelf.Base.Outcome.{archive, ok, Malloc, granted, denied, bind-ok, guard-ok}
use elftoolchain_libelf.Ar.Symtab.{
  Arsym, Table, c_string, get_word, hash_at, skip_string, sentinel, named_symbol, read_symbol,
  read_symbols, read_table, check_count, process_svr4_symtab,
}

-- An entry with an offset inside the file, a name that begins at or behind `start` and in front of
-- `end`, and its hash.
pub record IsEntry (file : List ℕ) (start end : ℕ) (entry : Arsym) : Type 0 where
  pub name : ℕ
  pub named : entry.as_name ≡ some name
  pub begins : start ≤ name
  pub inside : name < end
  pub hashed : hash_at file name ≡ ok entry.as_hash
  pub offset : entry.as_off < length file

-- A table of entries that ends with the sentinel.
abbrev pub IsSymtab : List ℕ → (start end : ℕ) → List Arsym → Type 0
IsSymtab file start end symtab =
    (entries : List Arsym) × (symtab ≡ entries ++ (sentinel ∷ []))
    × All (IsEntry file start end) entries

-- The place behind the string `t` at `s` and its NUL, but not behind `end`.
abbrev pub next_name : (end s : ℕ) → List ℕ → ℕ
next_name end s t = if leb (s + length t + 1) end then s + length t + 1 else end

-- The entries for the offsets from `p` on, one word each, and the names from `s` on, one behind the
-- other, up to the sentinel.
abbrev pub AreSymbols : List ℕ → (end s p : ℕ) → List Arsym → Type 0
AreSymbols file end s p [] = ⊥
AreSymbols file end s p (entry ∷ []) = entry ≡ sentinel
AreSymbols file end s p (entry ∷ next ∷ rest) =
    (get_word file p ≡ ok entry.as_off)
    × (entry.as_name ≡ some s)
    × ((t : List ℕ) × (c_string (drop s file) ≡ ok t)
        × AreSymbols file end (next_name end s t) (p + 4) (next ∷ rest))

skip_string-next :
    (bytes t : List ℕ) (left s end s' : ℕ)
    → s + left ≡ end
    → c_string bytes ≡ ok t
    → skip_string bytes left s ≡ ok s'
    → s' ≡ next_name end s t
unfolding skip_string c_string
skip_string-next bytes t zero s end s' e named skipped = ground (arith, e, skipped)
skip_string-next [] t (suc left) s end s' e named skipped = ground (arith, skipped)
skip_string-next (c ∷ bytes) t (suc left) s end s' e named skipped = elim (Bool-cases (c == 0)) [
  | inl nul ↦
      let empty : [] ≡ t = ground (arith, named, nul) in
      rw (← empty) (ground (arith, e, skipped, nul))
  | inr more ↦
      let (t', rest, made) = bind-ok (c_string bytes) (rw (more, c_string) at named) in
      let same : c ∷ t' ≡ t = ground (arith, made) in
      let ih =
        skip_string-next bytes t' left (s + 1) end s' (omega (arith, e)) rest
          (rw (more, skip_string) at skipped) in
      rw (← same) (ground (arith, ih))
]

-- What a round of the loop reads.
record IsRead (file : List ℕ) (start end s p : ℕ) (entry : Arsym) (s' : ℕ) : Type 0 where
  entry-IsEntry : IsEntry file start end entry
  word : get_word file p ≡ ok entry.as_off
  at : entry.as_name ≡ some s
  t : List ℕ
  string : c_string (drop s file) ≡ ok t
  goes_on : s' ≡ next_name end s t

read_symbol-IsRead :
    (file : List ℕ) (start end s p : ℕ) (entry : Arsym) (s' : ℕ)
    → start ≤ s
    → read_symbol file end s p ≡ ok (entry, s')
    → IsRead file start end s p entry s'
unfolding read_symbol named_symbol hash_at
read_symbol-IsRead file start end s p entry s' begins h =
    let (inside, read) = guard-ok (leb end s) archive h in
    let (off, word, symbol) = bind-ok (get_word file p) read in
    let (off_in, named) = guard-ok (leb (length file) off) archive symbol in
    let (hash, hashed, skipped) = bind-ok (hash_at file s) named in
    let (next, skip, made) = bind-ok (skip_string (drop s file) (end - s) s) skipped in
    let (t, string, of_hash) = bind-ok (c_string (drop s file)) hashed in
    let same_next : s' ≡ next = ground (arith, made) in
    record {
      entry-IsEntry = record {
        name = s;
        named = ground (arith, made);
        begins = begins;
        inside = ground (arith, inside);
        hashed = hashed ∙ ap ok (ground (arith, made));
        offset = ground (arith, made, off_in);
      };
      word = word ∙ ap ok (ground (arith, made));
      at = ground (arith, made);
      t = t;
      string = string;
      goes_on =
          same_next
          ∙ skip_string-next (drop s file) t (end - s) s end next (ground (arith, inside)) string
              skip;
    }

-- A name is never empty of bytes: it has its NUL.
next_name-ge : (end s start : ℕ) (t : List ℕ) → s < end → start ≤ s → start ≤ next_name end s t
next_name-ge end s start t inside begins = ground (arith, inside, begins)

AreSymbols-cons :
    (file : List ℕ) (start end s s' p : ℕ) (entry : Arsym) (rest : List Arsym)
    → IsRead file start end s p entry s'
    → AreSymbols file end s' (p + 4) rest
    → AreSymbols file end s p (entry ∷ rest)
AreSymbols-cons file start end s s' p entry [] r all = absurd all
AreSymbols-cons file start end s s' p entry (next ∷ rest) r all =
    (r.word, r.at, (r.t, r.string, rw r.goes_on at all))

read_symbols-IsSymtab :
    (file : List ℕ) (start end n s p : ℕ) (symtab : List Arsym)
    → start ≤ s
    → read_symbols file end n s p ≡ ok symtab
    → IsSymtab file start end symtab × AreSymbols file end s p symtab × (length symtab ≡ n + 1)
unfolding read_symbols
read_symbols-IsSymtab file start end zero s p symtab begins h =
    let same : sentinel ∷ [] ≡ symtab = ground (arith, h) in
    rw (← same) (([], refl, tt), refl, refl)
read_symbols-IsSymtab file start end (suc n) s p symtab begins h =
    let ((entry, s'), read, more) = bind-ok (read_symbol file end s p) h in
    let (rest, loop, made) = bind-ok (read_symbols file end n s' (p + 4)) more in
    let r = read_symbol-IsRead file start end s p entry s' begins read in
    let inside : s < end = ground (arith, r.entry-IsEntry.inside, r.entry-IsEntry.named, r.at) in
    let later : start ≤ s' = rw r.goes_on (next_name-ge end s start r.t inside begins) in
    let ((entries, shape, all), symbols, count) =
      read_symbols-IsSymtab file start end n s' (p + 4) rest later loop in
    let consed : symtab ≡ entry ∷ rest = ground (arith, made) in
    rw consed (
      (entry ∷ entries, ap (λ x. entry ∷ x) shape, (r.entry-IsEntry, all)),
      AreSymbols-cons file start end s s' p entry rest r symbols,
      omega (arith, count),
    )

-- The table for the `n` symbols that the word in front of it announces.
pub record IsTableOf (e : Table) (symtab : List Arsym) (count n : ℕ) : Type 0 where
  pub announced : get_word e.e_rawfile e.e_rawsymtab ≡ ok n
  pub counted : count ≡ n + 1
  pub long : length symtab ≡ count
  pub entries :
      IsSymtab e.e_rawfile (e.e_rawsymtab + 4 + n * 4) (e.e_rawsymtab + e.e_rawsymtabsz) symtab
  pub symbols :
      AreSymbols e.e_rawfile
        (e.e_rawsymtab + e.e_rawsymtabsz)
        (e.e_rawsymtab + 4 + n * 4)
        (e.e_rawsymtab + 4)
        symtab

check_count-ok :
    (e : Table) (mem : Malloc) (n count : ℕ) (symtab : List Arsym)
    → get_word e.e_rawfile e.e_rawsymtab ≡ ok n
    → check_count e mem n ≡ ok (symtab, count)
    → IsTableOf e symtab count n
unfolding check_count read_table
check_count-ok e (denied errno) n count symtab word h = ground (arith, h)
check_count-ok e granted n count symtab word h =
    let end = e.e_rawsymtab + e.e_rawsymtabsz in
    let p = e.e_rawsymtab + 4 in
    let (fits, table) = guard-ok ((n == 0) || leb e.e_rawsymtabsz (4 + n * 4)) archive h in
    let (symtab', loop, made) = bind-ok (read_symbols e.e_rawfile end n (p + n * 4) p) table in
    let (shape, symbols, size) =
      read_symbols-IsSymtab e.e_rawfile (p + n * 4) end n (p + n * 4) p symtab' (omega arith)
        loop in
    let same : symtab ≡ symtab' = ground (arith, made) in
    let counted : count ≡ n + 1 = ground (arith, made) in
    rw same (record {
      announced = word;
      counted = counted;
      long = omega (arith, size, counted);
      entries = shape;
      symbols = symbols;
    })

-- The table that `process_svr4_symtab` returns has one entry more than the word in front of it says,
-- and the last one is the sentinel. Each other entry has the offset in its word of the array, which is
-- inside the file, and the hash of its name; the first name is the string behind the array, and each
-- other name the string behind the one before; every name begins behind the array and inside the table.
pub process_svr4_symtab-ok :
    (e : Table) (mem : Malloc) (symtab : List Arsym) (count : ℕ)
    → process_svr4_symtab e mem ≡ ok (symtab, count)
    → (n : ℕ) × IsTableOf e symtab count n
unfolding process_svr4_symtab
process_svr4_symtab-ok e mem symtab count h =
    let (fits, rest) = guard-ok (ltb e.e_rawsymtabsz 4) archive h in
    let (n, word, checked) = bind-ok (get_word e.e_rawfile e.e_rawsymtab) rest in
    (n, check_count-ok e mem n count symtab word checked)
