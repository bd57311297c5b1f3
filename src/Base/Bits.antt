-- ===== src/Base/Bits.antt =====
-- Bit by bit reading of `&`, `|` and `^`: bit `i` of a result is a function of the bits `i` of the
-- operands, and two numbers with the same bits are equal.
use Prim.Native.Nat.{
  ℕ, zero, suc, ◌+◌, ◌-◌, ◌*◌, ◌/◌, ◌%◌, ◌^◌, ◌≤◌, ◌<◌, min, max, bit_and, bit_or, bit_xor, digits,
  differ, bit_and-bitwise, bit_or-bitwise, bit_xor-bitwise,
}
use mathlib.Core.Path.{◌≡◌, refl, sym, ap, ◌∙◌}
use native.Mathlib.Nat.{pow-suc, mul_assoc, div-add-mod', div-div-eq-div-mul}
use native.Mathlib.Omega.{arith}

-- Bit `i` of `n`.
abbrev pub bit : ℕ → ℕ → ℕ
bit zero n = n % 2
bit (suc i) n = bit i (n / 2)

pub bit-lt : (i n : ℕ) → bit i n < 2
bit-lt zero n = omega arith
bit-lt (suc i) n = bit-lt i (n / 2)

pub bit-zero : (i : ℕ) → bit i 0 ≡ 0
bit-zero zero = refl
bit-zero (suc i) = bit-zero i

-- An operation `f` on digits: every bit of the result is `f` of the operands' bits, and the result
-- is no wider than they are. `z` is what the native operation makes of the second operand alone.
module _ (z : ℕ → ℕ) (f : ℕ → ℕ → ℕ) (z_bit : (i b : ℕ) → bit i (z b) ≡ f 0 (bit i b))
    (z_le : (b : ℕ) → z b ≤ b) (f_lt : (x y : ℕ) → x < 2 → y < 2 → f x y < 2) where
  bit-digits : (i fuel a b : ℕ) → a ≤ fuel → bit i (digits z f fuel a b) ≡ f (bit i a) (bit i b)
  bit-digits i zero (suc a) b le = absurd (omega arith)
  bit-digits i zero zero b le = rw bit-zero (z_bit i b)
  bit-digits i (suc fuel) zero b le = rw bit-zero (z_bit i b)
  bit-digits zero (suc fuel) (suc a) b le =
      omega (arith, f_lt (suc a % 2) (b % 2) (omega arith) (omega arith))
  bit-digits (suc i) (suc fuel) (suc a) b le =
      ap (bit i) (
        lower (digits z f fuel (suc a / 2) (b / 2)) (f (suc a % 2) (b % 2))
          (f_lt (suc a % 2) (b % 2) (omega arith) (omega arith)))
      ∙ bit-digits i fuel (suc a / 2) (b / 2) (omega arith)
    where
      lower : (x d : ℕ) → d < 2 → (x * 2 + d) / 2 ≡ x
      lower x d h = omega arith

  digits-lt : (w fuel a b : ℕ) → a ≤ fuel → a < 2 ^ w → b < 2 ^ w → digits z f fuel a b < 2 ^ w
  digits-lt w zero a b le ha hb = omega (arith, z_le b)
  digits-lt w (suc fuel) zero b le ha hb = omega (arith, z_le b)
  digits-lt zero (suc fuel) (suc a) b le ha hb = absurd (omega arith)
  digits-lt (suc w) (suc fuel) (suc a) b le ha hb = omega (
    arith,
    pow-suc 2 w,
    f_lt (suc a % 2) (b % 2) (omega arith) (omega arith),
    digits-lt w fuel (suc a / 2) (b / 2) (omega arith) (omega (arith, pow-suc 2 w))
        (omega (arith, pow-suc 2 w)),
  )

min-lt : (x y : ℕ) → x < 2 → y < 2 → min x y < 2
min-lt x y h k = omega arith

max-lt : (x y : ℕ) → x < 2 → y < 2 → max x y < 2
max-lt x y h k = omega arith

pub bit-bit_or : (i a b : ℕ) → bit i (bit_or a b) ≡ max (bit i a) (bit i b)
bit-bit_or i a b =
    simp bit_or-bitwise
      (bit-digits (λ y. y) max (λ j y. omega arith) (λ y. omega arith) max-lt i a a b (omega arith))

pub bit-bit_and : (i a b : ℕ) → bit i (bit_and a b) ≡ min (bit i a) (bit i b)
bit-bit_and i a b = simp bit_and-bitwise (
    bit-digits (λ y. 0) min (λ j y. rw bit-zero (omega arith)) (λ y. omega arith) min-lt i a a b
      (omega arith))

-- One bit of `^`.
abbrev pub bit_differ : ℕ → ℕ → ℕ
bit_differ x y = (x + y) % 2

differ-bit_differ : (x y : ℕ) → x < 2 → y < 2 → differ x y ≡ bit_differ x y
differ-bit_differ zero y h k = omega arith
differ-bit_differ (suc x) zero h k = omega arith
differ-bit_differ (suc zero) (suc y) h k = omega arith
differ-bit_differ (suc (suc x)) (suc y) h k = absurd (omega arith)

differ-lt : (x y : ℕ) → x < 2 → y < 2 → differ x y < 2
differ-lt x y h k = omega (arith, differ-bit_differ x y h k)

differ-zero : (x : ℕ) → x < 2 → x ≡ differ 0 x
differ-zero x h = ground arith

pub bit-bit_xor : (i a b : ℕ) → bit i (bit_xor a b) ≡ bit_differ (bit i a) (bit i b)
bit-bit_xor i a b =
    simp bit_xor-bitwise (
      bit-digits (λ y. y) differ (λ j y. differ-zero (bit j y) (bit-lt j y)) (λ y. omega arith)
        differ-lt i a a b (omega arith))
    ∙ differ-bit_differ (bit i a) (bit i b) (bit-lt i a) (bit-lt i b)

pub bit_xor-lt : (w a b : ℕ) → a < 2 ^ w → b < 2 ^ w → bit_xor a b < 2 ^ w
bit_xor-lt w a b ha hb = simp bit_xor-bitwise (
    digits-lt (λ y. y) differ (λ j y. differ-zero (bit j y) (bit-lt j y)) (λ y. omega arith)
      differ-lt w a a b (omega arith) ha hb)

pub bit_or-lt : (w a b : ℕ) → a < 2 ^ w → b < 2 ^ w → bit_or a b < 2 ^ w
bit_or-lt w a b ha hb = simp bit_or-bitwise (
    digits-lt (λ y. y) max (λ j y. omega arith) (λ y. omega arith) max-lt w a a b (omega arith) ha
      hb)

pub bit_and-lt : (w a b : ℕ) → a < 2 ^ w → b < 2 ^ w → bit_and a b < 2 ^ w
bit_and-lt w a b ha hb = simp bit_and-bitwise (
    digits-lt (λ y. 0) min (λ j y. rw bit-zero (omega arith)) (λ y. omega arith) min-lt w a a b
      (omega arith) ha hb)

-- `~x` of a `w`-bit word.
abbrev pub bit_not : ℕ → ℕ → ℕ
bit_not w x = 2 ^ w - 1 - x

pub bit-bit_not : (w i x : ℕ) → x < 2 ^ w → i < w → bit i (bit_not w x) ≡ 1 - bit i x
bit-bit_not zero i x hx hi = elim hi [ ]
bit-bit_not (suc w) zero x hx hi = omega (arith, pow-suc 2 w)
bit-bit_not (suc w) (suc i) x hx hi =
    let half : bit_not (suc w) x / 2 ≡ bit_not w (x / 2) = omega (arith, pow-suc 2 w) in
    rw half (bit-bit_not w i (x / 2) (omega (arith, pow-suc 2 w)) (omega arith))

pub bit-high : (w i x : ℕ) → x < 2 ^ w → w ≤ i → bit i x ≡ 0
bit-high zero i zero hx hi = bit-zero i
bit-high zero i (suc x) hx hi = absurd (omega arith)
bit-high (suc w) zero x hx hi = elim hi [ ]
bit-high (suc w) (suc i) x hx hi = bit-high w i (x / 2) (omega (arith, pow-suc 2 w)) (omega arith)

-- Two `w`-bit words with the same bits are equal.
pub bit_ext : (w x y : ℕ) → x < 2 ^ w → y < 2 ^ w → ((i : ℕ) → i < w → bit i x ≡ bit i y) → x ≡ y
bit_ext zero x y hx hy h = omega arith
bit_ext (suc w) x y hx hy h = omega (
  arith,
  h 0 (omega arith),
  bit_ext w (x / 2) (y / 2) (omega (arith, pow-suc 2 w)) (omega (arith, pow-suc 2 w))
      (λ i p. h (suc i) (omega arith)),
)

split_half : (w q r : ℕ) → (q * 2 ^ suc w + r) / 2 ≡ q * 2 ^ w + r / 2
split_half w q r =
    let scaled : q * 2 ^ suc w ≡ q * 2 ^ w * 2 =
      ap (λ x. q * x) (pow-suc 2 w) ∙ sym (mul_assoc q (2 ^ w) 2) in
    omega (arith, scaled)

split_low : (w q r : ℕ) → (q * 2 ^ suc w + r) % 2 ≡ r % 2
split_low w q r =
    let scaled : q * 2 ^ suc w ≡ q * 2 ^ w * 2 =
      ap (λ x. q * x) (pow-suc 2 w) ∙ sym (mul_assoc q (2 ^ w) 2) in
    omega (arith, scaled)

pub bit-split_low : (w i q r : ℕ) → i < w → bit i (q * 2 ^ w + r) ≡ bit i r
bit-split_low zero i q r h = elim h [ ]
bit-split_low (suc w) zero q r h = split_low w q r
bit-split_low (suc w) (suc i) q r h =
    rw (split_half w q r) (bit-split_low w i q (r / 2) (omega arith))

pub bit-split_high : (w i j q r : ℕ) → r < 2 ^ w → w + j ≡ i → bit i (q * 2 ^ w + r) ≡ bit j q
bit-split_high zero i j q r h e =
    let same : i ≡ j = omega (arith, e) in
    let none_low : q * 2 ^ 0 + r ≡ q = omega (arith, h) in rw (same, none_low) refl
bit-split_high (suc w) zero j q r h e = absurd (omega (arith, e))
bit-split_high (suc w) (suc i) j q r h e =
    rw (split_half w q r)
      (bit-split_high w i j q (r / 2) (omega (arith, h, pow-suc 2 w)) (omega (arith, e)))

-- The low `w` bits of a number are those of its rest modulo 2 ^ w.
pub bit-mod : (w i n : ℕ) → i < w → bit i (n % 2 ^ w) ≡ bit i n
bit-mod w i n h =
    sym (bit-split_low w i (n / 2 ^ w) (n % 2 ^ w) h) ∙ ap (bit i) (div-add-mod' n (2 ^ w))

pub bit-scale_low : (w i q : ℕ) → i < w → bit i (q * 2 ^ w) ≡ 0
bit-scale_low w i q h =
    let no_rest : q * 2 ^ w ≡ q * 2 ^ w + 0 = omega arith in
    rw no_rest (bit-split_low w i q 0 h ∙ bit-zero i)

pub bit-scale_high : (w i j q : ℕ) → w + j ≡ i → bit i (q * 2 ^ w) ≡ bit j q
bit-scale_high w i j q e =
    let no_rest : q * 2 ^ w ≡ q * 2 ^ w + 0 = omega arith in
    rw no_rest (bit-split_high w i j q 0 (pow_pos w) e)
  where
    pow_pos : (w : ℕ) → 0 < 2 ^ w
    pow_pos zero = omega arith
    pow_pos (suc w) = omega (arith, pow-suc 2 w, pow_pos w)

pub bit-div : (w i j n : ℕ) → w + j ≡ i → bit i n ≡ bit j (n / 2 ^ w)
bit-div zero i j n e = let same : i ≡ j = omega (arith, e) in rw same (ap (bit j) (omega arith))
bit-div (suc w) zero j n e = absurd (omega (arith, e))
bit-div (suc w) (suc i) j n e =
    let next : 2 * 2 ^ w ≡ 2 ^ suc w = omega (arith, pow-suc 2 w) in
    bit-div w i j (n / 2) (omega (arith, e))
    ∙ ap (bit j) (div-div-eq-div-mul n 2 (2 ^ w) ∙ ap (λ x. n / x) next)
