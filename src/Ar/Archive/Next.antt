-- ===== src/Ar/Archive/Next.antt =====
-- libelf/libelf_ar_util.c, libelf/elf_rand.c, libelf/elf_next.c: the place of the next member.
use elftoolchain_libelf.Base.{
  ℕ, zero, suc, ◌+◌, ◌*◌, ◌/◌, ◌%◌, ◌^◌, ◌<◌, ◌≤◌, ◌≡◌, refl, ap, ◌⊎◌, inl, inr, Bool, true, false,
  Option, none, some, length, leb, bit_and, bit_or, min, ◌≢◌, Bool-cases, arith,
}
use elftoolchain_libelf.Base.Bits.{
  bit, bit-lt, bit_not, bit-bit_and, bit-bit_not, bit-zero, bit_ext, bit_and-lt,
}
use elftoolchain_libelf.Base.Int.{ℤ, pos, negsuc}
use elftoolchain_libelf.Base.Outcome.{Result, ok}
use elftoolchain_libelf.State.{k_ar, ElfCmd, c_read, k_none}
use elftoolchain_libelf.Ar.Archive.{
  Archive, Member, Header, past_member, scan_strtab, scan_svr4, scan_first, finish_open,
  read_ar_header, byte_is, set_symtab, f_ar_variant_svr4, next_place, ar_open, elf_rand, elf_next,
  round_even, sarmag,
}

bit_and-even : (x y : ℕ) → y % 2 ≡ 0 → bit_and x y % 2 ≡ 0
bit_and-even x y h = omega (arith, bit-bit_and 0 x y, h)

-- Clearing the lowest bit of a word.
bit_and-clear : (x : ℕ) → x < 2 ^ 64 → bit_and x (bit_not 64 1) ≡ x / 2 * 2
bit_and-clear x h =
    bit_ext 64 (bit_and x (bit_not 64 1)) (x / 2 * 2)
      (bit_and-lt 64 x (bit_not 64 1) h (omega arith)) (omega arith) each
  where
    half : x / 2 * 2 / 2 ≡ x / 2
    half = omega arith

    each : (i : ℕ) → i < 64 → bit i (bit_and x (bit_not 64 1)) ≡ bit i (x / 2 * 2)
    each zero k = omega (arith, bit-bit_and 0 x (bit_not 64 1))
    each (suc j) k = rw (half) (
        omega (
          arith,
          bit-bit_and (suc j) x (bit_not 64 1),
          bit-bit_not 64 (suc j) 1 (omega arith) k,
          bit-zero j,
          bit-lt j (x / 2),
        ))

round_even-le : (n : ℕ) → n + 1 < 2 ^ 63 → (n ≤ round_even n) × (round_even n < 2 ^ 63)
unfolding round_even
round_even-le n h =
    let clear = bit_and-clear ((n + 1) % 2 ^ 64) (omega arith) in
    (omega (arith, clear), omega (arith, clear))

round_even-lt : (n : ℕ) → round_even n < 2 ^ 64
unfolding round_even
round_even-lt n = bit_and-lt 64 ((n + 1) % 2 ^ 64) (bit_not 64 1) (omega arith) (omega arith)

round_even-even : (n : ℕ) → round_even n % 2 ≡ 0
unfolding round_even
round_even-even n = bit_and-even ((n + 1) % 2 ^ 64) (bit_not 64 1) (omega arith)

past_member-even : (s sz : ℕ) → s % 2 ≡ 0 → past_member s sz % 2 ≡ 0
unfolding past_member
past_member-even s sz h =
    omega (arith, h, bit_and-even ((sz + 1) % 2 ^ 64) (bit_not 32 1) (omega arith))

past_member-le : (s sz : ℕ) → s ≤ past_member s sz
unfolding past_member
past_member-le s sz = omega arith

-- An even place in the file, behind the archive's magic string.
abbrev pub IsPlace : ℕ → Type 0
IsPlace n = (n % 2 ≡ 0) × (sarmag ≤ n)

past_member-IsPlace : (s sz : ℕ) → IsPlace s → IsPlace (past_member s sz)
past_member-IsPlace s sz h = (past_member-even s sz h.0, omega (arith, past_member-le s sz, h.1))

scan_strtab-IsPlace :
    (e e' : Archive) (s n : ℕ) (h : Option Header)
    → IsPlace s
    → scan_strtab e s h ≡ (e', some n)
    → IsPlace n
unfolding scan_strtab
scan_strtab-IsPlace e e' s n none at scanned = ground (arith, scanned)
scan_strtab-IsPlace e e' s n (some arh) at scanned =
    ground (arith, scanned, past_member-IsPlace s arh.ar_size at)

scan_svr4-IsPlace :
    (e e' : Archive) (s n : ℕ) (arh : Header)
    → IsPlace s
    → scan_svr4 e s arh ≡ (e', some n)
    → IsPlace n
unfolding scan_svr4
scan_svr4-IsPlace e e' s n arh at scanned = elim (Bool-cases (byte_is arh.ar_name 1 32)) [
  | inl symtab ↦
      let next = past_member s arh.ar_size in
      scan_strtab-IsPlace (set_symtab e s arh.ar_size) e' next n (read_ar_header e.e_rawfile next)
        (past_member-IsPlace s arh.ar_size at) (ground (arith, scanned, symtab))
  | inr other ↦ ground (arith, scanned, other, past_member-IsPlace s arh.ar_size at)
]

scan_first-IsPlace :
    (e e' : Archive) (s n : ℕ) (h : Option Header)
    → IsPlace s
    → scan_first e s h ≡ (e', some n)
    → IsPlace n
unfolding scan_first
scan_first-IsPlace e e' s n none at scanned = ground (arith, scanned)
scan_first-IsPlace e e' s n (some arh) at scanned = elim (Bool-cases (byte_is arh.ar_name 0 47)) [
  | inl svr4 ↦
      scan_svr4-IsPlace (record e { e_flags = bit_or e.e_flags f_ar_variant_svr4 }) e' s n arh at
        (ground (arith, scanned, svr4))
  | inr bsd ↦ ground (arith, scanned, bsd, past_member-IsPlace s arh.ar_size at)
]

finish_open-IsPlace :
    (b : Bool) (scan : Archive × Option ℕ) (e' : Archive)
    → ((n : ℕ) → scan.1 ≡ some n → IsPlace n)
    → finish_open b scan ≡ (ok tt, e')
    → (e'.e_kind ≡ k_none) ⊎ ((n : ℕ) × (e'.e_next ≡ pos n) × IsPlace n)
unfolding finish_open
finish_open-IsPlace b (e, some s) e' at h = inr (s, ground (arith, h), at s refl)
finish_open-IsPlace true (e, none) e' at h = ground (arith, h)
finish_open-IsPlace false (e, none) e' at h = inl (ground (arith, h))

-- The place of the next member of an archive is even.
abbrev pub IsNext : ℤ → Type 0
IsNext (pos n) = n % 2 ≡ 0
IsNext (negsuc n) = (n + 1) % 2 ≡ 0

-- A call of `ar_open` that succeeds either finds no archive, which it reports by the kind of the
-- descriptor, or sets the place of the first member to an even place behind the magic string.
pub ar_open-ok :
    (e e' : Archive) (b : Bool)
    → ar_open e b ≡ (ok tt, e')
    → (e'.e_kind ≡ k_none) ⊎ ((n : ℕ) × (e'.e_next ≡ pos n) × IsPlace n)
unfolding ar_open
ar_open-ok e e' b h =
    let start = record e { e_kind = k_ar; e_nchildren = 0; e_next = negsuc 0 } in
    let scan = scan_first start sarmag (read_ar_header e.e_rawfile sarmag) in
    finish_open-IsPlace b scan e'
      (λ n found.
        scan_first-IsPlace start scan.0 sarmag n (read_ar_header e.e_rawfile sarmag)
          (omega arith, omega arith) (pair_ext scan found))
      (ground (arith, h))
  where
    pair_ext : (p : Archive × Option ℕ) {n : ℕ} → p.1 ≡ some n → p ≡ (p.0, some n)
    pair_ext (a, o) q = ap (λ x. (a, x)) q

elf_rand-IsNext :
    (a a' : Archive) (offset : ℤ) (r : Result ℕ)
    → elf_rand a offset ≡ (r, a')
    → IsNext a.e_next
    → IsNext a'.e_next
unfolding elf_rand
elf_rand-IsNext a a' (negsuc n) r h before = ground (arith, h, before)
elf_rand-IsNext a a' (pos n) r h before =
    let lowest : bit_and n 1 % 2 ≡ min (n % 2) 1 = bit-bit_and 0 n 1 in
    ground (arith, h, before, lowest)

next_place-IsNext : (n size : ℕ) → n % 2 ≡ 0 → n < 2 ^ 64 → IsNext (next_place n size)
next_place-IsNext n size h k = ground (arith, h, k)

elf_next-IsNext :
    (a a' : Archive) (m : Member) (r : Result ElfCmd)
    → elf_next m (some a) ≡ (r, some a')
    → IsNext a.e_next
    → IsNext a'.e_next
unfolding elf_next
elf_next-IsNext a a' m r h before =
    let end = (m.e_rawfile + m.e_rawsize) % 2 ^ 64 in
    ground (
      arith,
      h,
      before,
      next_place-IsNext (round_even end) (length a.e_rawfile) (round_even-even end)
          (round_even-lt end),
    )

-- A call that moves an archive to another member, with any result.
pub data Step : Archive → Archive → Type 0 where
  rand : {a a' : Archive} (offset : ℤ) (r : Result ℕ) → elf_rand a offset ≡ (r, a') → Step a a'
  next :
      {a a' : Archive} (m : Member) (r : Result ElfCmd)
      → elf_next m (some a) ≡ (r, some a')
      → Step a a'

-- The archives that calls lead to after `ar_open`.
pub data Reachable : Archive → Type 0 where
  opened :
      {a : Archive} (e : Archive) (b : Bool)
      → ar_open e b ≡ (ok tt, a)
      → a.e_kind ≢ k_none
      → Reachable a
  moved : {a' : Archive} (a : Archive) → Reachable a → Step a a' → Reachable a'

Step-IsNext : {a a' : Archive} → Step a a' → IsNext a.e_next → IsNext a'.e_next
Step-IsNext (rand {a} {a'} offset r h) before = elf_rand-IsNext a a' offset r h before
Step-IsNext (next {a} {a'} m r h) before = elf_next-IsNext a a' m r h before

-- In every archive that calls of `elf_rand` and `elf_next` lead to after a successful `ar_open`, the
-- place of the next member is even, which the opening of a member asserts.
pub Reachable-IsNext : {a : Archive} → Reachable a → IsNext a.e_next
Reachable-IsNext (opened {a} e b h archive) = elim (ar_open-ok e a b h) [
  | inl kind ↦ absurd (archive kind)
  | inr (n, at, place) ↦ rw at place.0
]
Reachable-IsNext (moved a before step) = Step-IsNext step (Reachable-IsNext before)

-- Where `elf_next` succeeds, the walk over the archive ends, or it goes on inside the file, at a place
-- behind all of the member: a walk makes progress. The end of the member in the file must be below
-- 2 ^ 63 - 1, so that the sums of the call fit an off_t.
pub elf_next-advances :
    (a a' : Archive) (m : Member)
    → m.e_rawfile + m.e_rawsize + 1 < 2 ^ 63
    → elf_next m (some a) ≡ (ok c_read, some a')
    → (a'.e_next ≡ pos 0)
      ⊎ ((n : ℕ) × (a'.e_next ≡ pos n) × (m.e_rawfile + m.e_rawsize ≤ n) × (n < length a.e_rawfile))
unfolding elf_next
elf_next-advances a a' m small h =
    let end = (m.e_rawfile + m.e_rawsize) % 2 ^ 64 in
    let whole : end ≡ m.e_rawfile + m.e_rawsize = omega arith in
    let (behind, positive) = round_even-le end (omega (arith, whole)) in
    elim (Bool-cases (leb (length a.e_rawfile) (round_even end))) [
      | inl past ↦ inl (ground (arith, h, past, positive))
      | inr inside ↦ inr (
        round_even end,
        ground (arith, h, inside, positive),
        omega (arith, whole, behind),
        ground (arith, inside),
      )
    ]
