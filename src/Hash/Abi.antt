-- ===== src/Hash/Abi.antt =====
-- libelf/elf_hash.c: the hash modulo 2 ^ 32 is the one of the System V ABI.
use elftoolchain_libelf.Base.{
  ℕ, zero, suc, ◌+◌, ◌-◌, ◌*◌, ◌/◌, ◌%◌, ◌^◌, ◌<◌, ◌≡◌, refl, ap, ◌∙◌, List, [], ◌∷◌, bit_and,
  bit_xor, min, ◌==◌, Bool-cases, inl, inr, leb, leb→le, arith,
}
use elftoolchain_libelf.Base.Bits.{
  bit, bit-lt, bit-zero, bit_not, bit-bit_not, bit-bit_and, bit-bit_xor, bit_differ, bit-high,
  bit_ext, bit_and-lt, bit_xor-lt, bit-scale_low, bit-scale_high, bit-div, bit-mod,
}
use elftoolchain_libelf.Hash.{hash_step, hash_loop, elf_hash}

-- The hash of the System V ABI, on 32-bit words: each byte is shifted in, and the four bits that this
-- moves out of the low 28 are folded into the bits from 4 on.
abbrev pub abi_fold : ℕ → ℕ
abi_fold x = bit_xor (x % 2 ^ 28) (x / 2 ^ 28 * 2 ^ 4)

abbrev pub abi_loop : ℕ → List ℕ → ℕ
abi_loop h [] = h
abi_loop h (c ∷ s) = abi_loop (abi_fold ((h * 2 ^ 4 + c) % 2 ^ 32)) s

-- Bits 28 to 31 of a word.
abbrev top : ℕ → ℕ
top x = x / 2 ^ 28 % 2 ^ 4

four_bits : (j a : ℕ) → min (bit j a) (bit j 15) ≡ bit j (a % 2 ^ 4)
four_bits zero a = omega arith
four_bits (suc zero) a = omega arith
four_bits (suc (suc zero)) a = omega arith
four_bits (suc (suc (suc zero))) a = omega arith
four_bits (suc (suc (suc (suc j)))) a = omega (
  arith,
  bit-high 4 (suc (suc (suc (suc j)))) 15 (omega arith) (omega arith),
  bit-high 4 (suc (suc (suc (suc j)))) (a % 2 ^ 4) (omega arith) (omega arith),
)

-- The `t` of the loop.
bit_and-top : (x : ℕ) → x < 2 ^ 64 → bit_and x 0xf000_0000 ≡ top x * 2 ^ 28
bit_and-top x h =
    bit_ext 64 (bit_and x 0xf000_0000) (top x * 2 ^ 28)
      (bit_and-lt 64 x 0xf000_0000 h (omega arith)) (omega arith) each
  where
    each : (i : ℕ) → i < 64 → bit i (bit_and x 0xf000_0000) ≡ bit i (top x * 2 ^ 28)
    each i k = elim (Bool-cases (leb 28 i)) [
      | inl high ↦
          let j : ℕ = i - 28 in
          let place : 28 + j ≡ i = omega (arith, leb→le 28 i high) in
          omega (
            arith,
            bit-bit_and i x 0xf000_0000,
            bit-div 28 i j x place,
            bit-scale_high 28 i j 15 place,
            bit-scale_high 28 i j (top x) place,
            four_bits j (x / 2 ^ 28),
          )
      | inr low ↦
          let below : i < 28 = ground (arith, low) in
          omega (
            arith,
            bit-bit_and i x 0xf000_0000,
            bit-scale_low 28 i 15 below,
            bit-scale_low 28 i (top x) below,
          )
    ]

-- A round of the loop past the shift.
abbrev fold : ℕ → ℕ
fold x = bit_and (bit_xor x (top x * 2 ^ 4)) (bit_not 64 (top x * 2 ^ 28))

fold-mod : (x : ℕ) → x < 2 ^ 64 → fold x % 2 ^ 32 ≡ abi_fold (x % 2 ^ 32)
fold-mod x h =
    bit_ext 32 (fold x % 2 ^ 32) (abi_fold (x % 2 ^ 32)) (omega arith) (omega (arith, abi_small))
      each
  where
    abi_small : abi_fold (x % 2 ^ 32) < 2 ^ 28
    abi_small =
        bit_xor-lt 28 (x % 2 ^ 32 % 2 ^ 28) (x % 2 ^ 32 / 2 ^ 28 * 2 ^ 4) (omega arith)
          (omega arith)

    same_low : x % 2 ^ 32 % 2 ^ 28 ≡ x % 2 ^ 28
    same_low = omega arith

    same_top : x % 2 ^ 32 / 2 ^ 28 ≡ top x
    same_top = omega arith

    in_fold :
        (i : ℕ)
        → i < 32
        → bit i (fold x % 2 ^ 32)
          ≡ min (bit_differ (bit i x) (bit i (top x * 2 ^ 4))) (1 - bit i (top x * 2 ^ 28))
    in_fold i k =
        bit-mod 32 i (fold x) k
        ∙ bit-bit_and i (bit_xor x (top x * 2 ^ 4)) (bit_not 64 (top x * 2 ^ 28))
        ∙ omega (
          arith,
          bit-bit_xor i x (top x * 2 ^ 4),
          bit-bit_not 64 i (top x * 2 ^ 28) (omega arith) (omega (arith, k)),
        )

    each : (i : ℕ) → i < 32 → bit i (fold x % 2 ^ 32) ≡ bit i (abi_fold (x % 2 ^ 32))
    each i k = elim (Bool-cases (leb 28 i)) [
      | inl high ↦
          let j : ℕ = i - 28 in
          let place : 28 + j ≡ i = omega (arith, leb→le 28 i high) in
          omega (
            arith,
            in_fold i k,
            bit-div 28 i j x place,
            bit-scale_high 28 i j (top x) place,
            bit-mod 4 j (x / 2 ^ 28) (omega (arith, k, place)),
            bit-high 8 i (top x * 2 ^ 4) (omega arith) (omega (arith, place)),
            bit-high 28 i (abi_fold (x % 2 ^ 32)) abi_small (omega (arith, place)),
            bit-lt i x,
          )
      | inr low ↦
          let below : i < 28 = ground (arith, low) in
          rw (same_low, same_top)
            (omega (
              arith,
              in_fold i k,
              bit-scale_low 28 i (top x) below,
              bit-bit_xor i (x % 2 ^ 28) (top x * 2 ^ 4),
              bit-mod 28 i x below,
            ))
    ]

bit_xor-zero : (x : ℕ) → x < 2 ^ 64 → bit_xor x 0 ≡ x
bit_xor-zero x h =
    bit_ext 64 (bit_xor x 0) x (bit_xor-lt 64 x 0 h (omega arith)) h
      (λ i k. omega (arith, bit-bit_xor i x 0, bit-zero i, bit-lt i x))

-- The shifted word of a round.
abbrev shifted : (h c : ℕ) → ℕ
shifted h c = (h * 2 ^ 4 % 2 ^ 64 + c) % 2 ^ 64

hash_step-fold : (h c : ℕ) → hash_step h c ≡ fold (shifted h c)
unfolding hash_step
hash_step-fold h c =
    rw (bit_and-top (shifted h c) (omega arith))
      (elim (Bool-cases (top (shifted h c) * 2 ^ 28 == 0)) [
        | inl no_top ↦
            let none_top : top (shifted h c) * 2 ^ 4 ≡ 0 = ground (arith, no_top) in
            rw (no_top, none_top, bit_xor-zero (shifted h c) (omega arith)) refl
        | inr some_top ↦
            let moved : top (shifted h c) * 2 ^ 28 / 2 ^ 24 ≡ top (shifted h c) * 2 ^ 4 =
              omega arith in
            rw (some_top, moved) refl
      ])

hash_loop-abi : (h : ℕ) (name : List ℕ) → hash_loop h name % 2 ^ 32 ≡ abi_loop (h % 2 ^ 32) name
unfolding hash_loop
hash_loop-abi h [] = refl
hash_loop-abi h (c ∷ s) =
    let low : shifted h c % 2 ^ 32 ≡ (h % 2 ^ 32 * 2 ^ 4 + c) % 2 ^ 32 = omega arith in
    hash_loop-abi (hash_step h c) s
    ∙ ap (λ x. abi_loop x s)
        (ap (λ x. x % 2 ^ 32) (hash_step-fold h c)
          ∙ fold-mod (shifted h c) (omega arith)
          ∙ ap abi_fold low)

-- Modulo 2 ^ 32 `elf_hash`, which computes with the 64 bits of `unsigned long`, is the hash function of the
-- System V ABI on 32-bit words, for every name.
pub elf_hash-abi : (name : List ℕ) → elf_hash name % 2 ^ 32 ≡ abi_loop 0 name
unfolding elf_hash
elf_hash-abi name = hash_loop-abi 0 name
