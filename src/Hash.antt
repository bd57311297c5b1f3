-- ===== src/Hash.antt =====
-- libelf/elf_hash.c: the hash of a symbol name.
pub mod Abi
mod Tests
use elftoolchain_libelf.Base.{
  ℕ, ◌+◌, ◌*◌, ◌/◌, ◌%◌, ◌^◌, List, [], ◌∷◌, bit_and, bit_xor, ◌==◌, if◌then◌else◌,
}
use elftoolchain_libelf.Base.Bits.{bit_not}

-- One round of the loop on an `unsigned long` of 64 bits: the byte, `t`, the fold, and the `h & ~t` of the
-- loop's head.
unfoldable pub hash_step : (h c : ℕ) → ℕ
hash_step h c =
    let h1 = (h * 2 ^ 4 % 2 ^ 64 + c) % 2 ^ 64 in
    let t = bit_and h1 0xf000_0000 in
    let h2 = if t == 0 then h1 else bit_xor h1 (t / 2 ^ 24) in bit_and h2 (bit_not 64 t)

unfoldable pub hash_loop : (h : ℕ) → List ℕ → ℕ
unfolding hash_step
hash_loop h [] = h
hash_loop h (c ∷ s) = hash_loop (hash_step h c) s

-- `elf_hash` on the bytes of the name in front of its NUL.
unfoldable pub elf_hash : List ℕ → ℕ
unfolding hash_loop
elf_hash name = hash_loop 0 name
