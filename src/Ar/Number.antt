-- ===== src/Ar/Number.antt =====
-- libelf/libelf_ar_util.c: the numbers in the fields of an archive header.
use elftoolchain_libelf.Base.{
  ℕ, zero, suc, ◌+◌, ◌-◌, ◌*◌, ◌%◌, ◌^◌, ◌<◌, ◌≡◌, refl, ap, ◌∙◌, ◌⊎◌, inl, inr, ◌||◌, Option, none,
  some, List, [], ◌∷◌, ◌++◌, map, ltb, leb, ◌==◌, if◌then◌else◌, length, All, replicate, arith,
}
use native.Mathlib.Nat.{pow-suc, mod-eq_of_lt, pow-le-pow_right}

-- The first loop: blanks are skipped.
skip_blanks : List ℕ → List ℕ
skip_blanks [] = []
skip_blanks (c ∷ s) = let rest = skip_blanks s in if c == 32 then rest else c ∷ s

-- The second loop, on the bytes that are left, with the value `r` so far. A size_t wraps.
number_loop : (base r : ℕ) → List ℕ → Option ℕ
number_loop base r [] = some r
number_loop base r (c ∷ s) =
    let rest = number_loop base ((r * base % 2 ^ 64 + (c - 48)) % 2 ^ 64) s in
    if c == 32
    then some r
    else if ltb c 48 || ltb 57 c
    then none
    else if leb base (c - 48)
    then some r
    else rest

-- `_libelf_ar_get_number` on the bytes from `src` to `src + sz`: `none` is the return value 0, `some r`
-- is 1 with `*ret` set. The callers' bases, 8 and 10, satisfy the assertion.
unfoldable pub get_number : List ℕ → (base : ℕ) → Option ℕ
unfolding skip_blanks number_loop
get_number src base = number_loop base 0 (skip_blanks src)

-- The value of digits, the most significant first, after the value `r`.
abbrev pub digits_value : (base r : ℕ) → List ℕ → ℕ
digits_value base r [] = r
digits_value base r (d ∷ ds) = digits_value base (r * base + d) ds

-- ASCII digits
abbrev pub digit_chars : List ℕ → List ℕ
digit_chars ds = map (λ d. d + 48) ds

-- The field ends here, or a blank follows.
abbrev pub IsEnd : List ℕ → Type 0
IsEnd [] = Unit {0}
IsEnd (c ∷ s) = c ≡ 32

-- The bases of the numbers in a header.
abbrev pub IsBase : ℕ → Type 0
IsBase base = (base ≡ 8) ⊎ (base ≡ 10)

wrap_step :
    (base r d : ℕ)
    → IsBase base
    → (r % 2 ^ 64 * base % 2 ^ 64 + d) % 2 ^ 64 ≡ (r * base + d) % 2 ^ 64
wrap_step base r d (inl e) = rw e (omega arith)
wrap_step base r d (inr e) = rw e (omega arith)

number_loop-digits :
    (base r : ℕ) (ds rest : List ℕ)
    → IsBase base
    → All (λ d. d < base) ds
    → IsEnd rest
    → number_loop base (r % 2 ^ 64) (digit_chars ds ++ rest)
      ≡ some (digits_value base r ds % 2 ^ 64)
unfolding number_loop
number_loop-digits base r [] [] h all end = refl
number_loop-digits base r [] (c ∷ s) h all end = ground arith
number_loop-digits base r (d ∷ ds) rest (inl e) all end = ground (
  arith,
  wrap_step base r d (inl e),
  number_loop-digits base (r * base + d) ds rest (inl e) all.1 end,
)
number_loop-digits base r (d ∷ ds) rest (inr e) all end = ground (
  arith,
  wrap_step base r d (inr e),
  number_loop-digits base (r * base + d) ds rest (inr e) all.1 end,
)

digits_value-lt :
    (base r k m : ℕ) (ds : List ℕ)
    → IsBase base
    → All (λ d. d < base) ds
    → r < 10 ^ k
    → k + length ds ≡ m
    → digits_value base r ds < 10 ^ m
digits_value-lt base r k m [] h all small e = let same : m ≡ k = omega (arith, e) in rw same small
digits_value-lt base r k m (d ∷ ds) h all small e =
    digits_value-lt base (r * base + d) (suc k) m ds h all.1 (next h) (omega (arith, e))
  where
    next : IsBase base → r * base + d < 10 ^ suc k
    next (inl b) = rw b (omega (arith, pow-suc 10 k, small, all.0, b))
    next (inr b) = rw b (omega (arith, pow-suc 10 k, small, all.0, b))

skip_blanks-digits :
    (k base d : ℕ) (s : List ℕ)
    → d < base
    → IsBase base
    → skip_blanks (replicate k 32 ++ ((d + 48) ∷ s)) ≡ (d + 48) ∷ s
unfolding skip_blanks
skip_blanks-digits zero base d s h b = ground arith
skip_blanks-digits (suc k) base d s h b = ground (arith, skip_blanks-digits k base d s h b)

-- A field with any number of blanks, then up to 19 digits of the base, up to its end or a blank, has the
-- value of the digits: nothing wraps.
pub get_number-digits :
    (base k d : ℕ) (ds rest : List ℕ)
    → IsBase base
    → d < base
    → All (λ x. x < base) ds
    → length ds < 19
    → IsEnd rest
    → get_number (replicate k 32 ++ (digit_chars (d ∷ ds) ++ rest)) base
      ≡ some (digits_value base 0 (d ∷ ds))
unfolding get_number
get_number-digits base k d ds rest b h all short end =
    rw (skip_blanks-digits k base d (digit_chars ds ++ rest) h b)
      (number_loop-digits base 0 (d ∷ ds) rest b (h, all) end ∙ ap some (mod-eq_of_lt (small b)))
  where
    below : IsBase base → 0 * base + d < 10 ^ 1
    below (inl e) = omega (arith, e, h)
    below (inr e) = omega (arith, e, h)

    small : IsBase base → digits_value base 0 (d ∷ ds) < 2 ^ 64
    small b = omega (
      arith,
      digits_value-lt base (0 * base + d) 1 (1 + length ds) ds b all (below b) refl,
      pow-le-pow_right {n = 10} (omega arith) {i = 1 + length ds} {j = 19} (omega (arith, short)),
    )
