-- ===== src/Gelf/Tests.antt =====
-- Runs of the gelf_*.c functions, and their theorems at concrete sections.
use elftoolchain_libelf.Base.{
  ℕ, ◌^◌, ◌<◌, ◌≡◌, ◌≢◌, ◌↔◌, refl, inl, true, false, some, List, [], ◌∷◌, get_elem?, length, arith,
}
use elftoolchain_libelf.Base.Int.{ℤ, pos, negsuc}
use elftoolchain_libelf.Base.Outcome.{ok, err, argument, range}
use elftoolchain_libelf.Format.Types.{ElfClass, class_32, class_64, is_type, t_sym, t_rel, t_word}
use elftoolchain_libelf.Format.SectionType.{
  sht_symtab, sht_symtab_shndx, sht_rel, sht_rela, sht_dynamic, sht_sunw_move, sht_sunw_syminfo,
  sht_progbits, xlate_shtype,
}
use elftoolchain_libelf.Format.Size.{msize}
use elftoolchain_libelf.Gelf.Entry.{Descriptor, Section, LibelfData}
use elftoolchain_libelf.Gelf.Entry.Table.{IsTable, found}
use elftoolchain_libelf.Gelf.Sym.{
  Sym, gelf_getsym, gelf_update_sym, updated, widen_sym, gelf_getsym-update_sym,
  gelf_getsym-IsTable, gelf_update_sym-IsTable, gelf_update_sym-ok_iff, gelf_update_sym-keeps,
}
use elftoolchain_libelf.Gelf.Rel.{
  Rel, gelf_getrel, gelf_update_rel, wrapped_rel, gelf_update_rel-wraps,
}
use elftoolchain_libelf.Gelf.Rela.{Rela, gelf_getrela, gelf_update_rela, gelf_getrela-update_rela}
use elftoolchain_libelf.Gelf.Dyn.{Dyn, gelf_update_dyn}
use elftoolchain_libelf.Gelf.Cap.{gelf_getcap, gelf_getcap-never}
use elftoolchain_libelf.Gelf.Move.{Move, gelf_update_move}
use elftoolchain_libelf.Gelf.Syminfo.{Syminfo, gelf_update_syminfo}
use elftoolchain_libelf.Gelf.Symshndx.{
  both, gelf_getsymshndx, gelf_update_symshndx, gelf_update_symshndx-fails,
  gelf_getsymshndx-IsTable,
}

abbrev object : ElfClass → Descriptor
object ec = record { address = 0x5000; e_class = ec; e_version = 1 }

abbrev section_of : ElfClass → ℕ → Section
section_of ec sht = record { s_elf = some (object ec); sh_type = sht }

-- The data of a section of type `sht`.
abbrev data_of : {A : Type 0} → ElfClass → (sht size : ℕ) → List A → LibelfData A
data_of ec sht size es = record {
  d_scn = some (section_of ec sht);
  d_type = xlate_shtype sht;
  d_size = size;
  d_buf = es;
}

abbrev symbol : (value size : ℕ) → Sym
symbol value size = record {
  st_name = 1;
  st_info = 0x12;
  st_other = 0;
  st_shndx = 5;
  st_value = value;
  st_size = size;
}

abbrev two_symbols : LibelfData Sym
two_symbols = data_of class_32 sht_symtab 32 (symbol 0 0 ∷ symbol 0x1000 8 ∷ [])

abbrev moved_symbol : LibelfData Sym
moved_symbol = data_of class_32 sht_symtab 32 (symbol 0 0 ∷ symbol 0x2000 8 ∷ [])

two_symbols-IsTable : IsTable t_sym class_32 two_symbols
unfolding xlate_shtype msize
two_symbols-IsTable = record {
  scn = section_of class_32 sht_symtab;
  elf = object class_32;
  at_scn = refl;
  at_elf = refl;
  class = refl;
  version = refl;
  holds = refl;
  sized = refl;
}

move_symbol :
    gelf_update_sym (some two_symbols) (pos 1) (some (symbol 0x2000 8)) ≡ (ok tt, some moved_symbol)
unfolding gelf_update_sym xlate_shtype msize
move_symbol = refl

wide_symbol :
    (gelf_update_sym (some two_symbols) (pos 1) (some (symbol 0x1_0000_0000 8))).0 ≡ err range
unfolding gelf_update_sym xlate_shtype msize
wide_symbol = refl

past_the_last : gelf_getsym (some two_symbols) (pos 2) true ≡ err argument
unfolding gelf_getsym xlate_shtype msize
past_the_last = refl

gelf_getsym-update_sym_example : gelf_getsym (some moved_symbol) (pos 1) true ≡ ok (symbol 0x2000 8)
gelf_getsym-update_sym_example =
    gelf_getsym-update_sym two_symbols moved_symbol (pos 1) (symbol 0x2000 8) move_symbol

gelf_getsym-IsTable_example :
    gelf_getsym (some two_symbols) (pos 1) true
    ≡ found widen_sym class_32 (get_elem? two_symbols.d_buf 1)
gelf_getsym-IsTable_example =
    gelf_getsym-IsTable two_symbols 1 class_32 (inl refl) two_symbols-IsTable (omega arith)

gelf_update_sym-IsTable_example :
    gelf_update_sym (some two_symbols) (pos 1) (some (symbol 0x2000 8))
    ≡ updated two_symbols 1 (symbol 0x2000 8) class_32 (get_elem? two_symbols.d_buf 1)
gelf_update_sym-IsTable_example =
    gelf_update_sym-IsTable two_symbols 1 class_32 (inl refl) two_symbols-IsTable (omega arith)
      (symbol 0x2000 8)

gelf_update_sym-ok_iff_example :
    ((gelf_update_sym (some two_symbols) (pos 1) (some (symbol 0x2000 8))).0 ≡ ok tt)
    ↔ ((1 < length two_symbols.d_buf) × (0x2000 < 2 ^ 32) × (8 < 2 ^ 32))
gelf_update_sym-ok_iff_example =
    gelf_update_sym-ok_iff two_symbols 1 (symbol 0x2000 8) two_symbols-IsTable (omega arith)

gelf_update_sym-keeps_example :
    IsTable t_sym class_32 moved_symbol
    × ((j : ℕ) → 1 ≢ j → get_elem? moved_symbol.d_buf j ≡ get_elem? two_symbols.d_buf j)
gelf_update_sym-keeps_example =
    gelf_update_sym-keeps two_symbols moved_symbol 1 class_32 (some (symbol 0x2000 8)) (ok tt)
      two_symbols-IsTable move_symbol

-- A relocation of type 7 against the symbol 5, before and after it is packed.
abbrev rel_of : ℕ → Rel
rel_of info = record { r_offset = 0x40; r_info = info }

abbrev one_rel : LibelfData Rel
one_rel = data_of class_32 sht_rel 8 (rel_of 0 ∷ [])

one_rel-IsTable : IsTable t_rel class_32 one_rel
unfolding xlate_shtype msize
one_rel-IsTable = record {
  scn = section_of class_32 sht_rel;
  elf = object class_32;
  at_scn = refl;
  at_elf = refl;
  class = refl;
  version = refl;
  holds = refl;
  sized = refl;
}

write_rel :
    gelf_update_rel (some one_rel) (pos 0) (some (rel_of 0x5_0000_0007))
    ≡ (ok tt, some (data_of class_32 sht_rel 8 (rel_of 0x507 ∷ [])))
unfolding gelf_update_rel xlate_shtype msize
write_rel = refl

-- The symbol index 2 ^ 24 + 5 does not fit.
gelf_update_rel-wraps_example :
    (d' : LibelfData Rel) × (gelf_update_rel
        (some one_rel)
        (pos 0)
        (some (rel_of 0x100_0005_0000_0007))
      ≡ (ok tt, some d'))
    × (gelf_getrel (some d') (pos 0) true ≡ ok (wrapped_rel (rel_of 0x100_0005_0000_0007)))
gelf_update_rel-wraps_example =
    gelf_update_rel-wraps one_rel 0 (rel_of 0x100_0005_0000_0007) one_rel-IsTable (omega arith)
      (omega arith) (omega arith) (omega arith) (omega arith)

abbrev rela_of : ℕ → ℤ → Rela
rela_of info addend = record { r_offset = 0x40; r_info = info; r_addend = addend }

abbrev one_rela : ℕ → ℤ → LibelfData Rela
one_rela info addend = data_of class_32 sht_rela 12 (rela_of info addend ∷ [])

write_rela :
    gelf_update_rela (some (one_rela 0 (pos 0))) (pos 0) (some (rela_of 0x5_0000_0007 (negsuc 3)))
    ≡ (ok tt, some (one_rela 0x507 (negsuc 3)))
unfolding gelf_update_rela xlate_shtype msize
write_rela = refl

gelf_getrela-update_rela_example :
    gelf_getrela (some (one_rela 0x507 (negsuc 3))) (pos 0) true
    ≡ ok (rela_of 0x5_0000_0007 (negsuc 3))
gelf_getrela-update_rela_example =
    gelf_getrela-update_rela (one_rela 0 (pos 0)) (one_rela 0x507 (negsuc 3)) (pos 0)
      (rela_of 0x5_0000_0007 (negsuc 3)) (omega arith) write_rela

abbrev one_dyn : ℤ → ℕ → LibelfData Dyn
one_dyn tag val = data_of class_64 sht_dynamic 16 (record { d_tag = tag; d_val = val } ∷ [])

write_dyn :
    gelf_update_dyn
      (some (one_dyn (pos 0) 0))
      (pos 0)
      (some (record { d_tag = pos 1; d_val = 0x99 }))
    ≡ (ok tt, some (one_dyn (pos 1) 0x99))
unfolding gelf_update_dyn xlate_shtype msize
write_dyn = refl

abbrev some_move : ℕ → Move
some_move value = record {
  m_value = value;
  m_info = 2;
  m_poffset = 0x30;
  m_repeat = 4;
  m_stride = 8;
}

abbrev one_move : ℕ → LibelfData Move
one_move value = data_of class_32 sht_sunw_move 24 (some_move value ∷ [])

write_move :
    gelf_update_move (some (one_move 0)) (pos 0) (some (some_move 0x1_0000_0000))
    ≡ (ok tt, some (one_move 0x1_0000_0000))
unfolding gelf_update_move xlate_shtype msize
write_move = refl

abbrev one_syminfo : ℕ → LibelfData Syminfo
one_syminfo flags =
    data_of class_32 sht_sunw_syminfo 4 (record { si_boundto = 1; si_flags = flags } ∷ [])

write_syminfo :
    gelf_update_syminfo
      (some (one_syminfo 0))
      (pos 0)
      (some (record { si_boundto = 1; si_flags = 3 }))
    ≡ (ok tt, some (one_syminfo 3))
unfolding gelf_update_syminfo xlate_shtype msize
write_syminfo = refl

gelf_getcap-never_example :
    gelf_getcap
      (some (data_of class_64 sht_progbits 16 (record { c_tag = 1; c_val = 2 } ∷ [])))
      (pos 0)
      true
    ≢ ok (record { c_tag = 1; c_val = 2 })
gelf_getcap-never_example =
    gelf_getcap-never
      (some (data_of class_64 sht_progbits 16 (record { c_tag = 1; c_val = 2 } ∷ []))) (pos 0) true
      (record { c_tag = 1; c_val = 2 })

-- The section indices of `two_symbols`.
abbrev two_indices : LibelfData ℕ
two_indices = data_of class_32 sht_symtab_shndx 8 (0 ∷ 0x1_0001 ∷ [])

two_indices-IsTable : IsTable t_word class_32 two_indices
unfolding xlate_shtype msize
two_indices-IsTable = record {
  scn = section_of class_32 sht_symtab_shndx;
  elf = object class_32;
  at_scn = refl;
  at_elf = refl;
  class = refl;
  version = refl;
  holds = refl;
  sized = refl;
}

two_indices-word : two_indices.d_type ≡ some t_word
unfolding xlate_shtype
two_indices-word = refl

two_symbols-no-word : is_type two_symbols.d_type t_word ≡ false
unfolding xlate_shtype
two_symbols-no-word = refl

gelf_getsymshndx-IsTable_example :
    gelf_getsymshndx (some two_symbols) (some two_indices) (pos 1) true true
    ≡ both (get_elem? two_symbols.d_buf 1) (get_elem? two_indices.d_buf 1)
unfolding two_symbols-IsTable two_indices-IsTable
gelf_getsymshndx-IsTable_example =
    gelf_getsymshndx-IsTable two_symbols two_indices 1 class_32 (inl refl) two_symbols-IsTable
      two_indices-IsTable refl two_indices-word (omega arith)

-- The symbol is written, and the call fails.
update_symshndx :
    gelf_update_symshndx (some two_symbols) (some two_indices) (pos 1) (some (symbol 0x2000 8)) 9
    ≡ (err argument, some moved_symbol, some two_indices)
unfolding gelf_update_symshndx xlate_shtype msize
update_symshndx = refl

gelf_update_symshndx-fails_example :
    ((gelf_update_symshndx
        (some two_symbols)
        (some two_indices)
        (pos 1)
        (some (symbol 0x2000 8))
        9).0
      ≢ ok tt)
    × ((gelf_update_symshndx
          (some two_symbols)
          (some two_indices)
          (pos 1)
          (some (symbol 0x2000 8))
          9).1
        ≡ (gelf_update_sym (some two_symbols) (pos 1) (some (symbol 0x2000 8))).1)
    × ((gelf_update_symshndx
          (some two_symbols)
          (some two_indices)
          (pos 1)
          (some (symbol 0x2000 8))
          9).2
        ≡ some two_indices)
gelf_update_symshndx-fails_example =
    gelf_update_symshndx-fails two_symbols (some two_indices) (pos 1) (some (symbol 0x2000 8)) 9
      two_symbols-no-word
