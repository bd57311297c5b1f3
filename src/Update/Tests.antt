-- ===== src/Update/Tests.antt =====
-- Runs of the layout of an object, and its theorems at concrete objects.
use mathlib.Core.List.{Perm}
use elftoolchain_libelf.Base.{
  ℕ, ◌^◌, ◌≤◌, ◌<◌, ◌≡◌, refl, replicate, true, none, some, [], ◌∷◌, arith,
}
use elftoolchain_libelf.Base.Outcome.{ok, err, data_error, granted}
use elftoolchain_libelf.Format.Types.{class_64, t_sym}
use elftoolchain_libelf.Format.Size.{fsize, file_size}
use elftoolchain_libelf.State.{Elf, Scn, Data, k_elf, c_write, c_read}
use elftoolchain_libelf.Numbering.{zero_shdr, new_scn}
use elftoolchain_libelf.Header.Ehdr.{Library, init_ehdr}
use elftoolchain_libelf.Header.Phdr.{zero_phdr}
use elftoolchain_libelf.Section.Data.{Host, fresh_data, elf_getdata}
use elftoolchain_libelf.Update.Extent.{ehdr, section, shdr}
use elftoolchain_libelf.Update.Extent.Layout.{IsLaidOut}
use elftoolchain_libelf.Update.Image.{Fits, EndsBy}
use elftoolchain_libelf.Update.Resync.Stored.{Located}
use elftoolchain_libelf.Update.Resync.Layout.{
  object_extents, resync_elf-lays_out, resync_elf-IsLaidOut,
}
use elftoolchain_libelf.Update.Extent.Order.{new_extent}
use elftoolchain_libelf.Update.Section.{compute_section_extents, roundup64}
use elftoolchain_libelf.Update.Section.Placing.{needed, Packed, AlignedBy}
use elftoolchain_libelf.Update.Section.Packing.{compute_section_extents-Packed}
use elftoolchain_libelf.Update.Section.Unaligned.{compute_section_extents-unaligned}
use elftoolchain_libelf.Update.Sections.{Env}
use elftoolchain_libelf.Update.Sync.{Sync}
use elftoolchain_libelf.Update.Resync.{resync_elf}

abbrev host : Host
host = record {
  descriptor = granted;
  buffer = 0x1000;
  translates = λ t ec src count. true;
  raw_address = 0x8000;
}

abbrev lib : Library
lib = record {
  byteorder = 1;
  version = 1;
  to_ehdr = λ ec swap src. init_ehdr ec 1;
  to_phdr = λ ec swap src. zero_phdr;
  to_shdr = λ ec swap src. zero_shdr;
}

abbrev env : Env
env = record {
  lib = lib;
  ehdr_mem = granted;
  scn0_mem = granted;
  phdr_mem = granted;
  scn_mem = λ i. granted;
  header_extent = λ t. granted;
  scn_extent = λ i. granted;
  host = λ i. host;
  phnum_mem = granted;
  shnum_mem = granted;
}

-- Ten bytes, and a symbol that is aligned at 8.
abbrev ten_bytes : Data
ten_bytes = record (fresh_data 1) { d_buf = 0x2000; d_size = 10 }

abbrev one_symbol : Data
one_symbol = record (fresh_data 1) { d_buf = 0x3000; d_type = some t_sym; d_size = 24; d_align = 8 }

abbrev progbits : Scn
progbits = record (new_scn 1) {
  s_shdr = record zero_shdr { sh_type = 1 };
  s_data = ten_bytes ∷ one_symbol ∷ [];
  s_flags = 2;
}

-- A new object with section 0 and one other section.
abbrev two_sections : Elf
two_sections = record {
  e_byteorder = 1;
  e_class = class_64;
  e_cmd = c_write;
  e_flags = 0;
  e_kind = k_elf;
  e_rawfile = none;
  e_version = 1;
  e_ehdr = some (record (init_ehdr class_64 1) { ei_data = 1 });
  e_phdr = none;
  e_scn = new_scn 0 ∷ progbits ∷ [];
  e_nphdr = 0;
  e_nscn = 2;
  e_strndx = 0;
}

abbrev start : Sync
start = record { elf = two_sections; extents = [] }

-- The bytes are padded up to the symbol.
run_layout :
    (resync_elf env start).1.extents
    ≡ new_extent ehdr 0 64 1 ∷ new_extent section 64 40 2 ∷ new_extent shdr 104 128 0 ∷ []
unfolding resync_elf
run_layout = refl

run_size : (resync_elf env start).0 ≡ ok 232
unfolding resync_elf
run_size = refl

abbrev finished : Sync
finished = (resync_elf env start).1

run_start : resync_elf env start ≡ (ok 232, finished)
unfolding resync_elf
run_start = refl

finished-Fits : Fits finished.extents
unfolding resync_elf
finished-Fits = omega arith

resync_elf-lays_out_example :
    (phoff shoff desc : ℕ) × Perm finished.extents (
      object_extents class_64 finished.elf.e_nphdr finished.elf.e_nscn phoff shoff desc
        finished.elf.e_scn)
    × Located class_64 finished.elf phoff shoff
resync_elf-lays_out_example = resync_elf-lays_out env start finished 232 refl run_start

resync_elf-IsLaidOut_example : IsLaidOut 0 finished.extents × EndsBy 232 finished.extents
resync_elf-IsLaidOut_example =
    resync_elf-IsLaidOut env start finished 232 refl run_start finished-Fits

abbrev placed : Scn
placed = (compute_section_extents two_sections progbits 64 host).1

run_section : compute_section_extents two_sections progbits 64 host ≡ (ok tt, placed)
unfolding compute_section_extents
run_section = refl

progbits-needed : needed two_sections progbits.s_data < 2 ^ 64
unfolding fsize file_size
progbits-needed = omega arith

compute_section_extents-Packed_example :
    Packed two_sections 0 placed.s_data placed.s_size
    × ((align : ℕ) × AlignedBy align placed.s_data
        × (0 ≤ align)
        × (placed.s_offset ≡ roundup64 64 align))
compute_section_extents-Packed_example =
    compute_section_extents-Packed two_sections progbits placed 64 host (λ h. cc h) refl
      progbits-needed run_section

-- An object that was read from a file of 100 bytes, and a section of it that asks for no alignment.
abbrev read_object : Elf
read_object = record two_sections { e_cmd = c_read; e_rawfile = some (replicate 100 0) }

abbrev unaligned : Scn
unaligned = record (new_scn 1) {
  s_shdr = record zero_shdr { sh_type = 1; sh_offset = 64; sh_size = 8 };
  s_flags = 2;
}

abbrev unaligned_read : Scn
unaligned_read = (elf_getdata read_object unaligned none host).1

run_getdata :
    elf_getdata read_object unaligned none host
    ≡ (ok (record { d_scn = 1; place = 0 }), unaligned_read)
unfolding elf_getdata
run_getdata = refl

compute_section_extents-unaligned_example :
    (compute_section_extents read_object unaligned 64 host).0 ≡ err data_error
compute_section_extents-unaligned_example =
    compute_section_extents-unaligned read_object unaligned unaligned_read 64 host
      (record { d_scn = 1; place = 0 }) refl refl (omega arith) (omega arith) refl run_getdata
