-- ===== src/Header/Tests.antt =====
-- Runs of the functions on headers, and the theorem on a refused header at a concrete object.
use elftoolchain_libelf.Base.{
  [], ◌∷◌, ◌≤◌, ◌⊎◌, ◌↔◌, arith, ◌≡◌, refl, true, false, none, some, [], replicate,
}
use elftoolchain_libelf.Base.Outcome.{fault, ok, err, ErrorCode, granted}
use elftoolchain_libelf.Format.Types.{class_none, class_64}
use elftoolchain_libelf.State.{Elf, Ehdr, k_elf, c_write, c_read, c_rdwr, Phdr}
use elftoolchain_libelf.Numbering.{zero_shdr, new_scn}
use elftoolchain_libelf.Header.Ehdr.{Library, init_ehdr, ehdr}
use elftoolchain_libelf.Base.Int.{pos}
use elftoolchain_libelf.Header.Ehdr.Laws.{IsOpen}
use elftoolchain_libelf.Header.Class.{elf32_getshdr}
use elftoolchain_libelf.Header.Number.{elf_getphdrnum}
use elftoolchain_libelf.Header.Gelf.{gelf_getehdr, gelf_update_ehdr, gelf_getphdr, gelf_update_phdr}
use elftoolchain_libelf.Header.Gelf.Laws.{Counted}
use elftoolchain_libelf.Header.Gelf.RoundTrip.{gelf_getphdr-update_phdr, gelf_getehdr-update_ehdr}
use elftoolchain_libelf.Header.Gelf.Past.{gelf_update_phdr-fault_iff}
use elftoolchain_libelf.Header.Ehdr.Retry.{ehdr-retry}
use elftoolchain_libelf.Header.Phdr.{zero_phdr}

-- A header with a reserved number of sections.
abbrev reserved : Ehdr
reserved = record (init_ehdr class_64 1) { e_shoff = 64; e_shnum = 65280 }

abbrev lib : Library
lib = record {
  byteorder = 1;
  version = 1;
  to_ehdr = λ ec swap src. reserved;
  to_phdr = λ ec swap src. zero_phdr;
  to_shdr = λ ec swap src. zero_shdr;
}

abbrev object : Elf
object = record {
  e_byteorder = 1;
  e_class = class_64;
  e_cmd = c_read;
  e_flags = 0;
  e_kind = k_elf;
  e_rawfile = some (replicate 64 0);
  e_version = 1;
  e_ehdr = none;
  e_phdr = none;
  e_scn = [];
  e_nphdr = 0;
  e_nscn = 0;
  e_strndx = 0;
}

abbrev refused : Elf
refused = record object { e_ehdr = some reserved }

run_ehdr : ehdr lib object class_64 false granted granted ≡ (err ErrorCode.header, refused)
unfolding ehdr
run_ehdr = refl

abbrev new_object : Elf
new_object = record object { e_cmd = c_write; e_rawfile = none; e_class = class_none }

run_new_ehdr : ehdr lib new_object class_64 true granted granted ≡ (
  ok (init_ehdr class_64 1),
  record new_object { e_class = class_64; e_flags = 2; e_ehdr = some (init_ehdr class_64 1) },
)
unfolding ehdr
run_new_ehdr = refl

ehdr-retry_example : ehdr lib refused class_64 false granted granted ≡ (ok reserved, refused)
ehdr-retry_example =
    ehdr-retry lib object class_64 false false granted granted granted granted ErrorCode.header
      refused reserved refl run_ehdr refl

-- An object of one program header, to be written.
abbrev header : Ehdr
header = init_ehdr class_64 1

abbrev one_phdr : Elf
one_phdr = record object {
  e_cmd = c_rdwr;
  e_ehdr = some header;
  e_phdr = some (zero_phdr ∷ []);
  e_nphdr = 1;
}

one_phdr-IsOpen : IsOpen one_phdr header
one_phdr-IsOpen = record { elf = refl; known_class = refl; current = refl; present = refl }

one_phdr-Counted : Counted one_phdr
one_phdr-Counted phdrs there = ground (arith, there)

abbrev note : Phdr
note = record zero_phdr { p_type = 4; p_offset = 0x1_0000_0000 }

abbrev with_note : Elf
with_note = record one_phdr { e_flags = 2; e_phdr = some (note ∷ []) }

run_update_phdr :
    gelf_update_phdr lib one_phdr (pos 0) (some note) granted granted ≡ (ok tt, with_note)
unfolding gelf_update_phdr
run_update_phdr = refl

gelf_getphdr-update_phdr_example :
    gelf_getphdr lib with_note (pos 0) true granted granted granted ≡ (ok note, with_note)
gelf_getphdr-update_phdr_example =
    gelf_getphdr-update_phdr lib one_phdr with_note header 0 note granted granted granted granted
      granted one_phdr-IsOpen one_phdr-Counted run_update_phdr

gelf_update_phdr-fault_iff_example :
    ((gelf_update_phdr lib one_phdr (pos 1) (some note) granted granted).0 ≡ fault)
    ↔ ((1 ≤ one_phdr.e_nphdr) × ((one_phdr.e_phdr ≡ none) ⊎ (1 ≡ one_phdr.e_nphdr)))
gelf_update_phdr-fault_iff_example =
    gelf_update_phdr-fault_iff lib one_phdr header 1 note granted granted one_phdr-IsOpen
      one_phdr-Counted refl

abbrev executable : Ehdr
executable = record header { e_type = 2; e_entry = 0x40_0000 }

abbrev with_type : Elf
with_type = record one_phdr { e_flags = 2; e_ehdr = some executable }

run_update_ehdr :
    gelf_update_ehdr lib one_phdr (some executable) granted granted ≡ (ok tt, with_type)
unfolding gelf_update_ehdr
run_update_ehdr = refl

gelf_getehdr-update_ehdr_example :
    gelf_getehdr lib with_type true granted granted ≡ (ok executable, with_type)
gelf_getehdr-update_ehdr_example =
    gelf_getehdr-update_ehdr lib one_phdr with_type header executable granted granted granted
      granted one_phdr-IsOpen run_update_ehdr

run_phdrnum : elf_getphdrnum lib one_phdr granted granted ≡ (ok 1, one_phdr)
unfolding elf_getphdrnum
run_phdrnum = refl

run_getshdr : elf32_getshdr one_phdr (new_scn 0) ≡ err ErrorCode.class
unfolding elf32_getshdr
run_getshdr = refl
