-- ===== src/Numbering/Tests.antt =====
-- Runs of the numbering functions, and their theorems at concrete descriptors.
use elftoolchain_libelf.Base.{
  ℕ, ◌-◌, ◌^◌, ◌≡◌, refl, inl, Option, none, some, List, [], ◌∷◌, replicate, arith,
}
use elftoolchain_libelf.Base.Outcome.{err, fault, header, granted}
use elftoolchain_libelf.Format.Types.{class_32, class_64}
use elftoolchain_libelf.Format.Size.{file_size}
use elftoolchain_libelf.State.{Elf, Ehdr, Shdr, Scn, c_write, k_elf}
use elftoolchain_libelf.Numbering.{zero_shdr, new_scn, load_numbers}
use elftoolchain_libelf.Numbering.RoundTrip.{
  IsScn0, IsUnloaded, AreNumbers, IsLoaded, load_numbers-set, load_numbers-loses,
}

abbrev elf_of : Option (List ℕ) → List Scn → Elf
elf_of file scns = record {
  e_byteorder = 1;
  e_class = class_32;
  e_cmd = c_write;
  e_flags = 0;
  e_kind = k_elf;
  e_rawfile = file;
  e_version = 1;
  e_ehdr = none;
  e_phdr = none;
  e_scn = scns;
  e_nphdr = 0;
  e_nscn = 0;
  e_strndx = 0;
}

-- A descriptor with section 0, and one for a file of 200 bytes.
abbrev writer : Elf
writer = elf_of none (new_scn 0 ∷ [])

abbrev reader : Elf
reader = elf_of (some (replicate 200 0)) []

-- A header with the section headers at 64.
abbrev file_header : Ehdr
file_header = record {
  ei_class = 1;
  ei_data = 1;
  ei_version = 1;
  e_type = 1;
  e_machine = 3;
  e_version = 1;
  e_entry = 0;
  e_phoff = 0;
  e_shoff = 64;
  e_flags = 0;
  e_ehsize = 52;
  e_phentsize = 32;
  e_phnum = 0;
  e_shentsize = 40;
  e_shnum = 0;
  e_shstrndx = 0;
}

writer-IsScn0 : IsScn0 writer zero_shdr
writer-IsScn0 = record { scn = new_scn 0; rest = []; first = refl; index = refl; shdr = refl }

reader-IsUnloaded : IsUnloaded reader class_32 64
reader-IsUnloaded = record {
  class = inl refl;
  none_yet = refl;
  version = refl;
  placed = λ e. ground (arith, e);
  inside = omega arith;
  bounded = omega arith;
}

-- A header whose offset of the section headers is not set, but which counts sections.
no_offset :
    load_numbers reader class_32 (record file_header { e_shoff = 0; e_shnum = 3 }) zero_shdr granted
    ≡ (err header, reader)
unfolding load_numbers
no_offset = refl

-- The end of section header 0 wraps to 0, and the header is read outside the file.
past_the_file :
    (load_numbers reader class_64
      (record file_header { e_shoff = 2 ^ 64 - 64 })
      zero_shdr
      granted).0
    ≡ fault
unfolding load_numbers file_size
past_the_file = refl

load_numbers-set_example :
    (e' : Elf) × (eh' : Ehdr) × (sh' : Shdr) × AreNumbers writer file_header class_32 0x1_0000 2
      0xffff granted e' eh'
    × IsScn0 e' sh'
    × IsLoaded reader class_32 eh' sh' 0x1_0000 2 0xffff
load_numbers-set_example =
    load_numbers-set writer reader file_header zero_shdr class_32 0x1_0000 2 0xffff granted
      writer-IsScn0 refl reader-IsUnloaded
      (inl (omega arith, omega arith, omega arith, omega arith))

-- Three sections are lost.
load_numbers-loses_example :
    (e' : Elf) × (eh' : Ehdr) × (sh' : Shdr) × AreNumbers writer file_header class_32 3 0x1_0000 2
      granted e' eh'
    × IsScn0 e' sh'
    × IsLoaded reader class_32 eh' sh' 0 0x1_0000 2
load_numbers-loses_example =
    load_numbers-loses writer reader file_header zero_shdr class_32 3 0x1_0000 2 granted
      writer-IsScn0 refl reader-IsUnloaded (omega arith) (omega arith) (omega arith) (omega arith)
