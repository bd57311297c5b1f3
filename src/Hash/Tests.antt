-- ===== src/Hash/Tests.antt =====
-- Runs of the hash function, and its theorem at a name.
use elftoolchain_libelf.Base.{◌%◌, ◌^◌, ◌≡◌, refl, List, [], ◌∷◌, ℕ}
use elftoolchain_libelf.Hash.{elf_hash}
use elftoolchain_libelf.Hash.Abi.{abi_loop, elf_hash-abi}

-- "printf"
abbrev printf_name : List ℕ
printf_name = 112 ∷ 114 ∷ 105 ∷ 110 ∷ 116 ∷ 102 ∷ []

hash_printf : elf_hash printf_name ≡ 0x77905a6
unfolding elf_hash
hash_printf = refl

-- A name for which the sum of a round needs 33 bits: the bit stays in the result.
hash_wide : elf_hash (255 ∷ 15 ∷ 15 ∷ 15 ∷ 15 ∷ 15 ∷ 18 ∷ []) ≡ 0x1_0000_0002
unfolding elf_hash
hash_wide = refl

elf_hash-abi_example : elf_hash printf_name % 2 ^ 32 ≡ abi_loop 0 printf_name
elf_hash-abi_example = elf_hash-abi printf_name
