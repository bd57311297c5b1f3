-- ===== src/Header/Class.antt =====
-- libelf/gelf_ehdr.c, gelf_phdr.c, gelf_shdr.c, libelf_shdr.c, elf_phnum.c, elf_shnum.c, elf_shstrndx.c: the
-- functions for one class, and the deprecated ones, which report the same results by other values.
use elftoolchain_libelf.Base.{ℕ, true, false, not, ◌==◌, Option, List, if◌then◌else◌}
use elftoolchain_libelf.Base.Outcome.{Result, ok, err, argument, class, Malloc}
use elftoolchain_libelf.Format.Types.{ElfClass, class_none, class_32, class_64}
use elftoolchain_libelf.State.{is_elf, Elf, Ehdr, Phdr, Shdr, Scn}
use elftoolchain_libelf.Header.Ehdr.{Library, class_code, ehdr}
use elftoolchain_libelf.Header.Phdr.{getphdr, newphdr}
use elftoolchain_libelf.Header.Number.{elf_getphdrnum, elf_getshdrnum, elf_getshdrstrndx}

unfoldable pub elf32_getehdr : Library → Elf → (mem scn0 : Malloc) → Result Ehdr × Elf
unfolding ehdr
elf32_getehdr lib e mem scn0 = ehdr lib e class_32 false mem scn0

unfoldable pub elf64_getehdr : Library → Elf → (mem scn0 : Malloc) → Result Ehdr × Elf
unfolding ehdr
elf64_getehdr lib e mem scn0 = ehdr lib e class_64 false mem scn0

unfoldable pub elf32_newehdr : Library → Elf → (mem scn0 : Malloc) → Result Ehdr × Elf
unfolding ehdr
elf32_newehdr lib e mem scn0 = ehdr lib e class_32 true mem scn0

unfoldable pub elf64_newehdr : Library → Elf → (mem scn0 : Malloc) → Result Ehdr × Elf
unfolding ehdr
elf64_newehdr lib e mem scn0 = ehdr lib e class_64 true mem scn0

unfoldable pub elf32_getphdr : Library → Elf → (eh_mem scn0 mem : Malloc) → Result (List Phdr) × Elf
unfolding getphdr
elf32_getphdr lib e eh_mem scn0 mem = getphdr lib e class_32 eh_mem scn0 mem

unfoldable pub elf64_getphdr : Library → Elf → (eh_mem scn0 mem : Malloc) → Result (List Phdr) × Elf
unfolding getphdr
elf64_getphdr lib e eh_mem scn0 mem = getphdr lib e class_64 eh_mem scn0 mem

unfoldable pub elf32_newphdr :
    Library → Elf → (count : ℕ) → (eh_mem scn0 mem : Malloc) → Result (Option (List Phdr)) × Elf
unfolding newphdr
elf32_newphdr lib e count eh_mem scn0 mem = newphdr lib e class_32 count eh_mem scn0 mem

unfoldable pub elf64_newphdr :
    Library → Elf → (count : ℕ) → (eh_mem scn0 mem : Malloc) → Result (Option (List Phdr)) × Elf
unfolding newphdr
elf64_newphdr lib e count eh_mem scn0 mem = newphdr lib e class_64 count eh_mem scn0 mem

-- The class that `_libelf_getshdr` looks for, where ELFCLASSNONE stands for that of the object.
abbrev asked_class : Elf → ElfClass → ElfClass
asked_class e class_none = e.e_class
asked_class e ec = ec

-- `_libelf_getshdr` on a section of `e`
unfoldable pub getshdr : Elf → Scn → ElfClass → Result Shdr
getshdr e s ec =
    if not (is_elf e.e_kind)
    then err argument
    else if not (class_code (asked_class e ec) == class_code e.e_class)
    then err class
    else ok s.s_shdr

unfoldable pub elf32_getshdr : Elf → Scn → Result Shdr
unfolding getshdr
elf32_getshdr e s = getshdr e s class_32

unfoldable pub elf64_getshdr : Elf → Scn → Result Shdr
unfolding getshdr
elf64_getshdr e s = getshdr e s class_64

unfoldable pub elf_getphnum : Library → Elf → (mem scn0 : Malloc) → Result ℕ × Elf
unfolding elf_getphdrnum
elf_getphnum lib e mem scn0 = elf_getphdrnum lib e mem scn0

unfoldable pub elf_getshnum : Library → Elf → (mem scn0 : Malloc) → Result ℕ × Elf
unfolding elf_getshdrnum
elf_getshnum lib e mem scn0 = elf_getshdrnum lib e mem scn0

unfoldable pub elf_getshstrndx : Library → Elf → (mem scn0 : Malloc) → Result ℕ × Elf
unfolding elf_getshdrstrndx
elf_getshstrndx lib e mem scn0 = elf_getshdrstrndx lib e mem scn0
