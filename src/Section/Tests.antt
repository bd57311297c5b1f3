-- ===== src/Section/Tests.antt =====
-- Runs of the functions on sections, and their theorems at concrete objects.
use elftoolchain_libelf.Base.{ℕ, true, ◌^◌, ◌≡◌, refl, none, some, [], ◌∷◌, replicate, arith}
use elftoolchain_libelf.Base.Outcome.{ok, err, argument, granted}
use elftoolchain_libelf.Format.Types.{class_64}
use elftoolchain_libelf.State.{Data, Elf, Ehdr, k_elf, c_write, c_read}
use elftoolchain_libelf.Numbering.{zero_shdr, new_scn}
use elftoolchain_libelf.Header.Ehdr.{Library, init_ehdr}
use elftoolchain_libelf.Header.Phdr.{zero_phdr}
use elftoolchain_libelf.Section.Table.{Answers, read_scn, elf_newscn, elf_getscn}
use elftoolchain_libelf.Section.Data.{Host, fresh_data}
use elftoolchain_libelf.Update.Section.{data_extents}
use elftoolchain_libelf.Section.Strptr.{by_count, by_offset, elf_strptr}
use elftoolchain_libelf.Section.Strptr.Agree.{IsText, by_count-data_extents}
use elftoolchain_libelf.Section.Strptr.Inside.{PointsInto, elf_strptr-PointsInto}
use elftoolchain_libelf.Section.Table.Index.{IsTable, first_index, elf_getscn-elf_newscn}
use elftoolchain_libelf.Section.Table.Walk.{walk, walk-visits}

abbrev lib : Library
lib = record {
  byteorder = 1;
  version = 1;
  to_ehdr = λ ec swap src. init_ehdr ec 1;
  to_phdr = λ ec swap src. zero_phdr;
  to_shdr = λ ec swap src. zero_shdr;
}

abbrev answers : Answers
answers = record { ehdr_mem = granted; scn0_mem = granted; scn_mem = λ i. granted }

abbrev header : Ehdr
header = init_ehdr class_64 1

-- A new object that has its executable header.
abbrev new_object : Elf
new_object = record {
  e_byteorder = 1;
  e_class = class_64;
  e_cmd = c_write;
  e_flags = 0;
  e_kind = k_elf;
  e_rawfile = none;
  e_version = 1;
  e_ehdr = some header;
  e_phdr = none;
  e_scn = [];
  e_nphdr = 0;
  e_nscn = 0;
  e_strndx = 0;
}

abbrev with_section : Elf
with_section = record new_object {
  e_scn = new_scn 0 ∷ record (new_scn 1) { s_flags = 2 } ∷ [];
  e_nscn = 2;
}

run_newscn : elf_newscn lib new_object answers (λ i. granted) ≡ (ok 1, with_section)
unfolding elf_newscn
run_newscn = refl

run_getscn : elf_getscn lib with_section 7 answers ≡ (err argument, with_section)
unfolding elf_getscn
run_getscn = refl

-- An object read from a file of 200 bytes, whose two section headers follow the executable header.
abbrev file_header : Ehdr
file_header = record header { e_shoff = 64; e_shentsize = 64 }

abbrev read_object : Elf
read_object = record new_object {
  e_cmd = c_read;
  e_rawfile = some (replicate 200 0);
  e_ehdr = some file_header;
  e_nscn = 2;
}

abbrev loaded_object : Elf
loaded_object = record read_object {
  e_flags = 2 ^ 21;
  e_scn = read_scn 0 zero_shdr ∷ read_scn 1 zero_shdr ∷ [];
}

walk-visits_example : walk lib answers 2 with_section none ≡ some (1 ∷ [])
walk-visits_example =
    walk-visits lib with_section header answers
      (record { elf = refl; known_class = refl; current = refl; present = refl; loaded = refl }) 0 2
      (record { numbered = (refl, (refl, tt)); counted = refl }) refl (omega arith)

elf_getscn-elf_newscn_example :
    IsTable with_section
    × (1 ≡ first_index new_object)
    × (elf_getscn lib with_section 1 answers ≡ (ok 1, with_section))
elf_getscn-elf_newscn_example =
    elf_getscn-elf_newscn lib new_object header answers answers (λ i. granted) 1 with_section
      (record { elf = refl; known_class = refl; current = refl; present = refl; loaded = refl })
      (record { numbered = tt; counted = refl }) (omega arith) run_newscn

abbrev host : Host
host = record {
  descriptor = granted;
  buffer = 0x1000;
  translates = λ t ec src count. true;
  raw_address = 0x8000;
}

-- Ten bytes, and six that are aligned at 8.
abbrev ten_bytes : (off : ℕ) → Data
ten_bytes off = record (fresh_data 1) { d_buf = 0x2000; d_size = 10; d_off = off }

abbrev six_bytes : (off : ℕ) → Data
six_bytes off = record (fresh_data 1) { d_buf = 0x3000; d_size = 6; d_align = 8; d_off = off }

ten_bytes-IsText : IsText (ten_bytes 0)
ten_bytes-IsText = record {
  there = λ e. omega (arith, e);
  some_bytes = λ e. omega (arith, e);
  fits = omega arith;
  bytes = refl;
  current = refl;
  positive = omega arith;
  power = refl;
}

six_bytes-IsText : IsText (six_bytes 0)
six_bytes-IsText = record {
  there = λ e. omega (arith, e);
  some_bytes = λ e. omega (arith, e);
  fits = omega arith;
  bytes = refl;
  current = refl;
  positive = omega arith;
  power = refl;
}

run_layout :
    data_extents new_object (ten_bytes 0 ∷ six_bytes 0 ∷ []) 0 0
    ≡ (ok (22, 8), ten_bytes 0 ∷ six_bytes 16 ∷ [])
unfolding data_extents elftoolchain_libelf.Format.Size.file_size
run_layout = refl

by_count-data_extents_example :
    by_count 18 0 (ten_bytes 0 ∷ six_bytes 16 ∷ []) ≡ by_offset 18 (ten_bytes 0 ∷ six_bytes 16 ∷ [])
by_count-data_extents_example =
    by_count-data_extents new_object (ten_bytes 0 ∷ six_bytes 0 ∷ [])
      (ten_bytes 0 ∷ six_bytes 16 ∷ []) 22 8 18 refl refl (ten_bytes-IsText, (six_bytes-IsText, tt))
      (omega arith) run_layout

-- An object with a string table in section 1.
abbrev with_strings : Elf
with_strings = record new_object {
  e_scn =
      new_scn 0
      ∷ record (new_scn 1) {
        s_shdr = record zero_shdr { sh_type = 3; sh_size = 22 };
        s_data = ten_bytes 0 ∷ six_bytes 16 ∷ [];
      }
      ∷ [];
  e_nscn = 2;
}

run_strptr : elf_strptr lib with_strings 1 18 answers host ≡ (ok 0x3002, with_strings)
unfolding elf_strptr
run_strptr = refl

elf_strptr-PointsInto_example : (place : ℕ) × PointsInto place 0x3002 with_strings
elf_strptr-PointsInto_example =
    elf_strptr-PointsInto lib with_strings with_strings 1 18 0x3002 answers host run_strptr
