-- ===== src/Header/Number.antt =====
-- libelf/elf_phnum.c, elf_shnum.c, elf_shstrndx.c: the numbers of headers and of the string table.
pub mod Laws
use elftoolchain_libelf.Base.{ℕ, false, not, ◌||◌, some, if◌then◌else◌}
use elftoolchain_libelf.Base.Outcome.{Result, ok, err, fault, argument, Malloc}
use elftoolchain_libelf.Format.Types.{ElfClass}
use elftoolchain_libelf.State.{is_elf, has_class, Elf, Ehdr}
use elftoolchain_libelf.Numbering.{setshstrndx}
use elftoolchain_libelf.Header.Ehdr.{Library, ehdr}

-- The number once the header is found, which is a member of the descriptor.
found_number : (member : Elf → ℕ) → Result Ehdr × Elf → Result ℕ × Elf
found_number member (ok eh, e) = (ok (member e), e)
found_number member (err c, e) = (err c, e)
found_number member (fault, e) = (fault, e)

-- The text that `_libelf_getphdrnum`, `_libelf_getshdrnum` and `_libelf_getshdrstrndx` share.
unfoldable pub number_of : (member : Elf → ℕ) → Library → Elf → (mem scn0 : Malloc) → Result ℕ × Elf
unfolding found_number ehdr
number_of member lib e mem scn0 =
    if not (is_elf e.e_kind) || not (has_class e.e_class)
    then (err argument, e)
    else found_number member (ehdr lib e e.e_class false mem scn0)

unfoldable pub elf_getphdrnum : Library → Elf → (mem scn0 : Malloc) → Result ℕ × Elf
unfolding number_of
elf_getphdrnum lib e mem scn0 = number_of (λ e. e.e_nphdr) lib e mem scn0

unfoldable pub elf_getshdrnum : Library → Elf → (mem scn0 : Malloc) → Result ℕ × Elf
unfolding number_of
elf_getshdrnum lib e mem scn0 = number_of (λ e. e.e_nscn) lib e mem scn0

unfoldable pub elf_getshdrstrndx : Library → Elf → (mem scn0 : Malloc) → Result ℕ × Elf
unfolding number_of
elf_getshdrstrndx lib e mem scn0 = number_of (λ e. e.e_strndx) lib e mem scn0

-- The header that `_libelf_setshstrndx` leaves is the one of the descriptor.
put_header : Result (Unit {0}) × Elf × Ehdr → Result (Unit {0}) × Elf
put_header (r, e, eh) = (r, record e { e_ehdr = some eh })

set_strndx : ElfClass → (strndx : ℕ) → Malloc → Result Ehdr × Elf → Result (Unit {0}) × Elf
unfolding put_header setshstrndx
set_strndx ec strndx mem (ok eh, e) = put_header (setshstrndx e eh ec strndx mem)
set_strndx ec strndx mem (err c, e) = (err argument, e)
set_strndx ec strndx mem (fault, e) = (fault, e)

-- `elf_setshstrndx` on a descriptor that is not NULL; `strndx_mem` is the answer for section 0, if it
-- is made for the index.
unfoldable pub elf_setshstrndx :
    Library → Elf → (strndx : ℕ) → (mem scn0 strndx_mem : Malloc) → Result (Unit {0}) × Elf
unfolding set_strndx ehdr
elf_setshstrndx lib e strndx mem scn0 strndx_mem =
    if not (is_elf e.e_kind) || not (has_class e.e_class)
    then (err argument, e)
    else set_strndx e.e_class strndx strndx_mem (ehdr lib e e.e_class false mem scn0)
