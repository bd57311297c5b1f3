-- ===== src/Flag/Tests.antt =====
-- Runs of the flag functions, and their theorems at concrete descriptors.
use elftoolchain_libelf.Base.{ℕ, ◌≤◌, ◌≡◌, ◌≢◌, refl, none, some, [], arith}
use elftoolchain_libelf.Base.Bits.{bit}
use elftoolchain_libelf.Base.Outcome.{ok, err, argument, sequence}
use elftoolchain_libelf.Format.Types.{class_64}
use elftoolchain_libelf.State.{Elf, Scn, c_clr, c_set, c_write, k_elf}
use elftoolchain_libelf.Flag.{
  f_layout, f_dirty, f_archive_sysv, elf_flagelf, elf_flagehdr, elf_flagscn,
}
use elftoolchain_libelf.Flag.Laws.{IsChanged, elf_flagelf-ok, elf_flagelf-keeps}

-- A descriptor for writing, dirty and with an internal flag.
abbrev writer : Elf
writer = record {
  e_byteorder = 1;
  e_class = class_64;
  e_cmd = c_write;
  e_flags = 0x20002;
  e_kind = k_elf;
  e_rawfile = none;
  e_version = 1;
  e_ehdr = none;
  e_phdr = none;
  e_scn = [];
  e_nphdr = 0;
  e_nscn = 0;
  e_strndx = 0;
}

set_layout :
    elf_flagelf (some writer) c_set f_layout ≡ (ok 3, some (record writer { e_flags = 0x20003 }))
unfolding elf_flagelf
set_layout = refl

sysv_alone : elf_flagelf (some writer) c_set f_archive_sysv ≡ (err argument, some writer)
unfolding elf_flagelf
sysv_alone = refl

no_header : elf_flagehdr (some writer) c_set f_dirty ≡ (err sequence, some writer)
unfolding elf_flagehdr
no_header = refl

elf_flagelf-ok_example :
    IsChanged c_set 0x20002 f_layout 3 0x20003
    × (record writer { e_flags = 0x20003 } ≡ record writer { e_flags = 0x20003 })
elf_flagelf-ok_example =
    elf_flagelf-ok writer (record writer { e_flags = 0x20003 }) c_set f_layout 3 (omega arith)
      (omega arith) set_layout

elf_flagelf-keeps_example :
    ((i : ℕ) → 10 ≤ i → bit i 0x20003 ≡ bit i 0x20002)
    × (((n : ℕ) → ok 3 ≢ ok n) → record writer { e_flags = 0x20003 } ≡ writer)
elf_flagelf-keeps_example =
    elf_flagelf-keeps writer (record writer { e_flags = 0x20003 }) c_set f_layout (ok 3)
      (omega arith) (omega arith) set_layout

-- A dirty section with another flag.
abbrev dirty_scn : Scn
dirty_scn = record {
  s_shdr = record {
    sh_name = 0;
    sh_type = 1;
    sh_flags = 0;
    sh_addr = 0;
    sh_offset = 64;
    sh_size = 0;
    sh_link = 0;
    sh_info = 0;
    sh_addralign = 1;
    sh_entsize = 0;
  };
  s_data = [];
  s_rawdata = [];
  s_flags = 0x10002;
  s_ndx = 1;
  s_offset = 0;
  s_rawoff = 0;
  s_size = 0;
}

clear_dirty :
    elf_flagscn (some dirty_scn) c_clr f_dirty
    ≡ (ok 0, some (record dirty_scn { s_flags = 0x10000 }))
unfolding elf_flagscn
clear_dirty = refl
