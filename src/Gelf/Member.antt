-- ===== src/Gelf/Member.antt =====
-- libelf/_libelf.h: the macros that copy a member of a GElf structure into its 32-bit form, or stop.
-- common/elfdefinitions.h: the packing of `r_info`.
use elftoolchain_libelf.Base.{
  ℕ, ◌+◌, ◌-◌, ◌*◌, ◌/◌, ◌%◌, ◌^◌, ◌<◌, ◌≡◌, ltb, if◌then◌else◌, some, arith,
}
use elftoolchain_libelf.Base.Int.{ℤ, fits_s32}
use elftoolchain_libelf.Base.Outcome.{range}
use elftoolchain_libelf.Gelf.Entry.{Stored}

-- LIBELF_COPY_U32: `stop` is what is left when the value is out of range; else the low 32 bits of the
-- value are assigned and the routine goes on.
unfoldable pub copy_u32 : {A : Type 0} → ℕ → A → (ℕ → Stored A) → Stored A
copy_u32 v stop next = if ltb 0xffff_ffff v then (stop, some range) else next (v % 2 ^ 32)

-- LIBELF_COPY_S32
unfoldable pub copy_s32 : {A : Type 0} → ℤ → A → (ℤ → Stored A) → Stored A
copy_s32 v stop next = if fits_s32 v then next v else (stop, some range)

-- ELF32_R_SYM, ELF32_R_TYPE and ELF32_R_INFO, on uint32_t
abbrev pub elf32_r_sym : ℕ → ℕ
elf32_r_sym i = i / 2 ^ 8

abbrev pub elf32_r_type : ℕ → ℕ
elf32_r_type i = i % 2 ^ 8

abbrev pub elf32_r_info : ℕ → ℕ → ℕ
elf32_r_info s t = (s * 2 ^ 8 % 2 ^ 32 + t % 2 ^ 8) % 2 ^ 32

-- ELF64_R_SYM, ELF64_R_TYPE and ELF64_R_INFO, on uint64_t
abbrev pub elf64_r_sym : ℕ → ℕ
elf64_r_sym i = i / 2 ^ 32

abbrev pub elf64_r_type : ℕ → ℕ
elf64_r_type i = i % 2 ^ 32

abbrev pub elf64_r_info : ℕ → ℕ → ℕ
elf64_r_info s t = (s * 2 ^ 32 % 2 ^ 64 + t % 2 ^ 32) % 2 ^ 64

-- The test of `r_info` in `gelf_update_rel` and `gelf_update_rela`: `~0UL` has 64 bits, `~0U` 32.
unfoldable pub copy_info : {A : Type 0} → ℕ → A → (ℕ → Stored A) → Stored A
copy_info info stop next =
    if ltb (elf32_r_sym (2 ^ 64 - 1)) (elf64_r_sym info)
    then (stop, some range)
    else if ltb (elf32_r_type (2 ^ 32 - 1)) (elf64_r_type info)
    then (stop, some range)
    else next (elf32_r_info (elf64_r_sym info % 2 ^ 32) (elf64_r_type info % 2 ^ 32))

-- The class independent form of a 32-bit `r_info`.
unfoldable pub widen_info : ℕ → ℕ
widen_info info = elf64_r_info (elf32_r_sym info) (elf32_r_type info)

-- A symbol index of 24 bits and a type of 8 bits survive the packing.
pub widen_info-elf32_r_info :
    (info : ℕ)
    → elf64_r_sym info < 2 ^ 24
    → elf64_r_type info < 2 ^ 8
    → widen_info (elf32_r_info (elf64_r_sym info % 2 ^ 32) (elf64_r_type info % 2 ^ 32)) ≡ info
unfolding widen_info
widen_info-elf32_r_info info h k = omega arith
