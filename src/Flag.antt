-- ===== src/Flag.antt =====
-- libelf/elf_flag.c: the flags of descriptors.
pub mod Laws
mod Tests
use elftoolchain_libelf.Base.{
  ℕ, Bool, true, false, not, ◌&&◌, ◌||◌, Option, none, some, bit_and, bit_or, ◌==◌, if◌then◌else◌,
}
use elftoolchain_libelf.Base.Bits.{bit_not}
use elftoolchain_libelf.Base.Outcome.{Result, ok, err, argument, sequence, mode}
use elftoolchain_libelf.Format.Types.{ElfClass, class_none, class_32, class_64}
use elftoolchain_libelf.State.{
  is_elf, has_class, is_write, Elf, Scn, Data, ElfKind, k_elf, ElfCmd, c_set, c_clr, c_write,
}

abbrev pub f_layout : ℕ
f_layout = 0x1

abbrev pub f_dirty : ℕ
f_dirty = 0x2

abbrev pub f_archive : ℕ
f_archive = 0x100

abbrev pub f_archive_sysv : ℕ
f_archive_sysv = 0x200

-- LIBELF_F_API_MASK
abbrev pub api_mask : ℕ
api_mask = 0xffff

-- c == ELF_C_SET || c == ELF_C_CLR
abbrev is_set_or_clr : ElfCmd → Bool
is_set_or_clr c_set = true
is_set_or_clr c_clr = true
is_set_or_clr c = false

-- (flags & ~mask) != 0, on `unsigned int`
unfoldable pub others : ℕ → ℕ → Bool
others flags mask = not (bit_and flags (bit_not 32 mask) == 0)

-- `r |= flags` or `r &= ~flags`
unfoldable pub change_flags : ElfCmd → ℕ → ℕ → ℕ
change_flags c_set old flags = bit_or old flags
change_flags c old flags = bit_and old (bit_not 32 flags)

-- The flags that `elf_flagelf` takes.
abbrev pub elf_mask : ℕ
elf_mask = bit_or (bit_or (bit_or f_archive f_archive_sysv) f_dirty) f_layout

-- `elf_flagelf` on a descriptor that is not NULL: the value returned, and the descriptor after it.
flag_elf : Elf → ElfCmd → ℕ → Result ℕ × Elf
unfolding others change_flags
flag_elf e c flags =
    if not (is_set_or_clr c) || not (is_elf e.e_kind) || others flags elf_mask
    then (err argument, e)
    else if not (bit_and flags f_archive_sysv == 0) && (bit_and flags f_archive == 0)
    then (err argument, e)
    else if not (bit_and flags f_archive == 0) && not (is_write e.e_cmd)
    then (err mode, e)
    else (
      ok (bit_and (change_flags c e.e_flags flags) api_mask),
      record e { e_flags = change_flags c e.e_flags flags },
    )

-- A NULL descriptor gives 0 and sets no error.
unfoldable pub elf_flagelf : Option Elf → ElfCmd → ℕ → Result ℕ × Option Elf
unfolding flag_elf
elf_flagelf none c flags = (ok 0, none)
elf_flagelf (some e) c flags = let (r, e') = flag_elf e c flags in (r, some e')

-- `elf_flagehdr` and `elf_flagphdr`, where `there` says that the header's pointer is not NULL.
flag_header : (there : Bool) → Elf → ElfCmd → ℕ → Result ℕ × Elf
unfolding flag_elf
flag_header there e c flags =
    if not (is_set_or_clr c)
      || not (is_elf e.e_kind)
      || others flags f_dirty
      || not (has_class e.e_class)
    then (err argument, e)
    else if there
    then flag_elf e c flags
    else (err sequence, e)

abbrev is_there {ℓ} : {A : Type ℓ} → Option A → Bool
is_there none = false
is_there (some a) = true

unfoldable pub elf_flagehdr : Option Elf → ElfCmd → ℕ → Result ℕ × Option Elf
unfolding flag_header
elf_flagehdr none c flags = (ok 0, none)
elf_flagehdr (some e) c flags =
    let (r, e') = flag_header (is_there e.e_ehdr) e c flags in (r, some e')

unfoldable pub elf_flagphdr : Option Elf → ElfCmd → ℕ → Result ℕ × Option Elf
unfolding flag_header
elf_flagphdr none c flags = (ok 0, none)
elf_flagphdr (some e) c flags =
    let (r, e') = flag_header (is_there e.e_phdr) e c flags in (r, some e')

-- The part that `elf_flagarhdr`, `elf_flagdata` and `elf_flagscn` share, on the flags alone.
unfoldable pub flag_dirty : ElfCmd → ℕ → ℕ → Result ℕ × ℕ
unfolding others change_flags
flag_dirty c old flags =
    if not (is_set_or_clr c) || others flags f_dirty
    then (err argument, old)
    else (ok (bit_and (change_flags c old flags) api_mask), change_flags c old flags)

-- The flags of the archive header are all that `elf_flagarhdr` reads or writes of it.
unfoldable pub elf_flagarhdr : (ar_flags : Option ℕ) → ElfCmd → ℕ → Result ℕ × Option ℕ
unfolding flag_dirty
elf_flagarhdr none c flags = (ok 0, none)
elf_flagarhdr (some a) c flags = let (r, a') = flag_dirty c a flags in (r, some a')

unfoldable pub elf_flagdata : Option Data → ElfCmd → ℕ → Result ℕ × Option Data
unfolding flag_dirty
elf_flagdata none c flags = (ok 0, none)
elf_flagdata (some d) c flags =
    let (r, f) = flag_dirty c d.d_flags flags in (r, some (record d { d_flags = f }))

unfoldable pub elf_flagscn : Option Scn → ElfCmd → ℕ → Result ℕ × Option Scn
unfolding flag_dirty
elf_flagscn none c flags = (ok 0, none)
elf_flagscn (some s) c flags =
    let (r, f) = flag_dirty c s.s_flags flags in (r, some (record s { s_flags = f }))

unfoldable pub elf_flagshdr : Option Scn → ElfCmd → ℕ → Result ℕ × Option Scn
unfolding elf_flagscn
elf_flagshdr s c flags = elf_flagscn s c flags
