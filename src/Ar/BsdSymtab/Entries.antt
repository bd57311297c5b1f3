-- ===== src/Ar/BsdSymtab/Entries.antt =====
-- libelf/libelf_ar.c: the entries of a BSD symbol table.
use elftoolchain_libelf.Base.{ℕ, ◌+◌, ◌/◌, ◌%◌, ◌^◌, ◌≡◌, some, List, [], ◌∷◌, length}
use elftoolchain_libelf.Base.Outcome.{ok}
use elftoolchain_libelf.Base.Int.{pos}
use elftoolchain_libelf.Ar.Symtab.{Arsym, Table, sentinel}
use elftoolchain_libelf.Ar.Symtab.Entries.{IsSymtab}
use elftoolchain_libelf.Ar.BsdSymtab.{Host, get_long}

-- The entry for the two values at `p`: the place of the name behind `s0`, and the offset.
pub record IsRanlib (host : Host) (file : List ℕ) (s0 p : ℕ) (entry : Arsym) : Type 0 where
  pub stroffset : ℕ
  pub first : get_long host file p ≡ ok (pos stroffset)
  pub second : get_long host file (p + 8) ≡ ok (pos entry.as_off)
  pub named : entry.as_name ≡ some (s0 + stroffset)

-- The entries for the pairs of values from `p` on, up to the sentinel.
abbrev pub AreRanlibs : Host → List ℕ → (s0 p : ℕ) → List Arsym → Type 0
AreRanlibs host file s0 p [] = ⊥
AreRanlibs host file s0 p (entry ∷ []) = entry ≡ sentinel
AreRanlibs host file s0 p (entry ∷ next ∷ rest) =
    IsRanlib host file s0 p entry × AreRanlibs host file s0 (p + 16) (next ∷ rest)

-- The table for an array of `arraysize` bytes behind the first value, with its names from `s0` on.
pub record IsBsdTable (host : Host) (e : Table) (symtab : List Arsym) (arraysize : ℕ) : Type 0 where
  pub announced : get_long host e.e_rawfile e.e_rawsymtab ≡ ok (pos arraysize)
  pub long : length symtab ≡ arraysize / 16 % 2 ^ 32 + 1
  pub entries :
      IsSymtab e.e_rawfile
        (e.e_rawsymtab + 8 + arraysize + 8)
        (e.e_rawsymtab + e.e_rawsymtabsz)
        symtab
  pub ranlibs :
      AreRanlibs host e.e_rawfile (e.e_rawsymtab + 8 + arraysize + 8) (e.e_rawsymtab + 8) symtab
