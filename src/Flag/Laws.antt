-- ===== src/Flag/Laws.antt =====
-- libelf/elf_flag.c: what the flag functions do to each bit.
use elftoolchain_libelf.Base.{
  ℕ, ◌-◌, ◌^◌, ◌≤◌, ◌<◌, ◌≡◌, ◌≢◌, refl, ap, ◌∙◌, ◌⊎◌, inl, inr, false, some, min, max, bit_and,
  sym, leb, leb→le, Bool-cases, arith,
}
use elftoolchain_libelf.Base.Bits.{
  bit, bit-lt, bit_not, bit-bit_not, bit-bit_and, bit-bit_or, bit-high, bit_and-lt, bit_or-lt,
  bit-zero,
}
use elftoolchain_libelf.Base.Outcome.{Result, ok}
use elftoolchain_libelf.State.{Elf, Scn, ElfCmd, c_set}
use elftoolchain_libelf.Flag.{
  others, change_flags, elf_mask, elf_flagelf, f_dirty, api_mask, flag_dirty, elf_flagscn,
}

-- Bit `i` of the flags after setting or clearing.
abbrev pub changed_bit : ElfCmd → ℕ → ℕ → ℕ
changed_bit c_set old flag = max old flag
changed_bit c old flag = min old (1 - flag)

bit-change_flags :
    (c : ElfCmd) (old flags i : ℕ)
    → flags < 2 ^ 32
    → i < 32
    → bit i (change_flags c old flags) ≡ changed_bit c (bit i old) (bit i flags)
unfolding change_flags
bit-change_flags c_set old flags i h k = bit-bit_or i old flags
bit-change_flags c old flags i h k =
    bit-bit_and i old (bit_not 32 flags) ∙ ap (min (bit i old)) (bit-bit_not 32 i flags h k)

-- A word without bits outside a mask of `w` bits has no bit from `w` on.
others-high :
    (flags mask w i : ℕ)
    → others flags mask ≡ false
    → flags < 2 ^ 32
    → mask < 2 ^ 32
    → mask < 2 ^ w
    → w ≤ i
    → bit i flags ≡ 0
unfolding others
others-high flags mask w i none_out h m mw k = elim (Bool-cases (leb 32 i)) [
  | inl wide ↦ bit-high 32 i flags h (leb→le 32 i wide)
  | inr narrow ↦
      let none_left : bit_and flags (bit_not 32 mask) ≡ 0 = ground (arith, none_out) in
      let at_bit : min (bit i flags) (bit i (bit_not 32 mask)) ≡ 0 =
        sym (bit-bit_and i flags (bit_not 32 mask)) ∙ ap (bit i) none_left ∙ bit-zero i in
      omega (
        arith,
        at_bit,
        bit-bit_not 32 i mask m (ground (arith, narrow)),
        bit-high w i mask mw k,
        bit-lt i flags,
      )
]

change_flags-lt :
    (c : ElfCmd) (old flags : ℕ) → old < 2 ^ 32 → flags < 2 ^ 32 → change_flags c old flags < 2 ^ 32
unfolding change_flags
change_flags-lt c_set old flags h k = bit_or-lt 32 old flags h k
change_flags-lt c old flags h k = bit_and-lt 32 old (bit_not 32 flags) h (omega arith)

-- What a call that sets or clears flags has done: each bit of the flags is the changed one, and the
-- value returned is the part of them that the API shows.
pub record IsChanged (c : ElfCmd) (old flags r new : ℕ) : Type 0 where
  pub each : (i : ℕ) → i < 32 → bit i new ≡ changed_bit c (bit i old) (bit i flags)
  pub fits : new < 2 ^ 32
  pub shown : r ≡ bit_and new api_mask

change_flags-IsChanged :
    (c : ElfCmd) (old flags : ℕ)
    → old < 2 ^ 32
    → flags < 2 ^ 32
    → IsChanged c old flags (bit_and (change_flags c old flags) api_mask) (change_flags c old flags)
change_flags-IsChanged c old flags h k = record {
  each = λ i b. bit-change_flags c old flags i k b;
  fits = change_flags-lt c old flags h k;
  shown = refl;
}

-- A call of `elf_flagelf` that succeeds on a descriptor sets or clears the given flags bit by bit,
-- changes nothing else of the descriptor, and returns the flags of the API.
pub elf_flagelf-ok :
    (e e' : Elf) (c : ElfCmd) (flags r : ℕ)
    → e.e_flags < 2 ^ 32
    → flags < 2 ^ 32
    → elf_flagelf (some e) c flags ≡ (ok r, some e')
    → IsChanged c e.e_flags flags r e'.e_flags × (e' ≡ record e { e_flags = e'.e_flags })
unfolding elf_flagelf
elf_flagelf-ok e e' c flags r h k called =
    let (value, after) : (r ≡ bit_and (change_flags c e.e_flags flags) api_mask)
        × (e' ≡ record e { e_flags = change_flags c e.e_flags flags }) =
      ground (arith, called) in
    rw (value, after) (change_flags-IsChanged c e.e_flags flags h k, refl)

-- A flag outside the mask stays as it is.
change_flags-high :
    (c : ElfCmd) (old flags mask w i : ℕ)
    → others flags mask ≡ false
    → old < 2 ^ 32
    → flags < 2 ^ 32
    → mask < 2 ^ 32
    → mask < 2 ^ w
    → w ≤ i
    → bit i (change_flags c old flags) ≡ bit i old
change_flags-high c old flags mask w i none_out h k m mw wi = elim (Bool-cases (leb 32 i)) [
  | inl wide ↦
      bit-high 32 i (change_flags c old flags) (change_flags-lt c old flags h k) (leb→le 32 i wide)
      ∙ sym (bit-high 32 i old h (leb→le 32 i wide))
  | inr narrow ↦
      bit-change_flags c old flags i k (ground (arith, narrow))
      ∙ unchanged c (bit i old) (bit i flags) (others-high flags mask w i none_out k m mw wi)
          (bit-lt i old)
]
  where
    unchanged : (c : ElfCmd) (x y : ℕ) → y ≡ 0 → x < 2 → changed_bit c x y ≡ x
    unchanged c_set x y p q = omega arith
    unchanged c x y p q = omega arith

-- The flags of a descriptor after `c` on `flags`.
abbrev reflag : Elf → ElfCmd → ℕ → Elf
reflag e c flags = record e { e_flags = change_flags c e.e_flags flags }

elf_flagelf-cases :
    (e e' : Elf) (c : ElfCmd) (flags : ℕ) (r : Result ℕ)
    → elf_flagelf (some e) c flags ≡ (r, some e')
    → (e' ≡ e)
      ⊎ ((others flags elf_mask ≡ false)
          × (e' ≡ reflag e c flags)
          × (r ≡ ok (bit_and (change_flags c e.e_flags flags) api_mask)))
unfolding elf_flagelf
elf_flagelf-cases e e' c flags r called = ground arith

-- Whatever its arguments and its result, `elf_flagelf` keeps the bits from 2 ^ 10 on, among which
-- are all flags that the library keeps for itself, and on a failure all of the descriptor.
pub elf_flagelf-keeps :
    (e e' : Elf) (c : ElfCmd) (flags : ℕ) (r : Result ℕ)
    → e.e_flags < 2 ^ 32
    → flags < 2 ^ 32
    → elf_flagelf (some e) c flags ≡ (r, some e')
    → ((i : ℕ) → 10 ≤ i → bit i e'.e_flags ≡ bit i e.e_flags) × (((n : ℕ) → r ≢ ok n) → e' ≡ e)
elf_flagelf-keeps e e' c flags r h k called = elim (elf_flagelf-cases e e' c flags r called) [
  | inl kept ↦ (λ i b. rw kept, λ failed. kept)
  | inr (none_out, changed, value) ↦ (
    λ i b. rw changed (
        change_flags-high c e.e_flags flags elf_mask 10 i none_out h k (omega arith) (omega arith)
          b),
    λ failed. absurd (failed (bit_and (change_flags c e.e_flags flags) api_mask) value),
  )
]

-- A call of `elf_flagscn` that succeeds on a section sets or clears the flags bit by bit, changes
-- nothing else of it, and keeps every bit above that of F_DIRTY.
pub elf_flagscn-ok :
    (s s' : Scn) (c : ElfCmd) (flags r : ℕ)
    → s.s_flags < 2 ^ 32
    → flags < 2 ^ 32
    → elf_flagscn (some s) c flags ≡ (ok r, some s')
    → IsChanged c s.s_flags flags r s'.s_flags
      × (s' ≡ record s { s_flags = s'.s_flags })
      × ((i : ℕ) → 2 ≤ i → bit i s'.s_flags ≡ bit i s.s_flags)
unfolding elf_flagscn flag_dirty
elf_flagscn-ok s s' c flags r h k called =
    let (value, after) : (r ≡ bit_and (change_flags c s.s_flags flags) api_mask)
        × (s' ≡ record s { s_flags = change_flags c s.s_flags flags }) =
      ground (arith, called) in
    let none_out : others flags f_dirty ≡ false = ground (arith, called) in
    rw (value, after)
      (
        change_flags-IsChanged c s.s_flags flags h k,
        refl,
        λ i b.
            change_flags-high c s.s_flags flags f_dirty 2 i none_out h k (omega arith) (omega arith)
              b,
      )
