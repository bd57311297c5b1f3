-- ===== src/Section/Strptr/Agree.antt =====
-- libelf/elf_strptr.c: the two ways to find a string, on data that libelf/elf_update.c has laid out.
use elftoolchain_libelf.Base.{
  ℕ, ◌+◌, ◌-◌, ◌/◌, ◌^◌, ◌≤◌, ◌<◌, ◌≡◌, ◌≢◌, refl, sym, ap, ◌∙◌, inl, inr, true, false, not, ◌&&◌,
  some, List, [], ◌∷◌, All, ltb, leb, ◌==◌, ltb→lt, not_ltb→le, if◌then◌else◌, Bool-cases, bit_and,
  arith,
}
use elftoolchain_libelf.Base.Outcome.{ok, err, argument}
use elftoolchain_libelf.Format.Types.{ElfClass, class_none, class_32, class_64, t_byte, ev_current}
use elftoolchain_libelf.Format.Size.{fsize, msize, memory_size, file_size}
use elftoolchain_libelf.State.{Elf, Data}
use elftoolchain_libelf.Update.Extent.{add64}
use elftoolchain_libelf.Update.Section.{by_application, roundup64, data_extents, place_data}
use elftoolchain_libelf.Update.Section.Placing.{
  roundup64_lem, data_extents-cons, check_data-ok, larger,
}
use elftoolchain_libelf.Section.Strptr.{is_empty, by_offset, by_count, aligned_count}

-- A descriptor of some bytes, of which the alignment is a power of two.
pub record IsText (d : Data) : Type 0 where
  pub there : d.d_buf ≢ 0
  pub some_bytes : d.d_size ≢ 0
  pub fits : d.d_size < 2 ^ 64
  pub bytes : d.d_type ≡ some t_byte
  pub current : d.d_version ≡ ev_current
  pub positive : 0 < d.d_align
  pub power : bit_and d.d_align (d.d_align - 1) ≡ 0

-- The data are laid out from `lo` on, as the library does it.
Placed : (lo : ℕ) → List Data → Type 0
Placed lo [] = Unit {0}
Placed lo (d ∷ ds) = (d.d_off ≡ roundup64 lo d.d_align) × Placed (d.d_off + d.d_size) ds

-- What the data need, padding included.
abbrev pub room : List Data → ℕ
room [] = 0
room (d ∷ ds) = d.d_align + d.d_size + room ds

module _ (d : Data) (text : IsText d) where
  text-is_empty : is_empty d ≡ false
  text-is_empty = ground (arith, text.there, text.some_bytes)

  by_offset-text :
      (offset : ℕ) (ds : List Data)
      → by_offset offset (d ∷ ds) ≡ (
          if leb d.d_off offset && ltb offset (add64 d.d_off d.d_size)
          then ok (d.d_buf + offset - d.d_off)
          else by_offset offset ds)
  unfolding by_offset
  by_offset-text offset ds = rw (text-is_empty, text.bytes)

  aligned_count-text : (lo : ℕ) → lo < 2 ^ 64 → aligned_count lo d.d_align ≡ roundup64 lo d.d_align
  unfolding roundup64
  aligned_count-text lo small = elim (Bool-cases (ltb 1 d.d_align)) [
    | inl more ↦ rw more
    | inr one ↦
        let same : d.d_align ≡ 1 = omega (arith, not_ltb→le _ _ one, text.positive) in
        rw same (omega arith)
  ]

  by_count-text :
      (offset lo at : ℕ) (ds : List Data)
      → aligned_count lo d.d_align ≡ at
      → lo ≤ offset
      → by_count offset lo (d ∷ ds) ≡ (
          if ltb offset at
          then err argument
          else if ltb offset (add64 at d.d_size)
          then ok (d.d_buf + offset - at)
          else by_count offset (add64 at d.d_size) ds)
  unfolding by_count
  by_count-text offset lo at ds aligned le =
      let seen : leb lo offset ≡ true = ground arith in
      let power_of_two : (ltb 1 d.d_align && not (bit_and d.d_align (d.d_align - 1) == 0)) ≡ false =
        ground (arith, text.power) in
      rw (← aligned, seen, text-is_empty, text.bytes, power_of_two)

by_count-nil : (offset lo : ℕ) → by_count offset lo [] ≡ by_offset offset []
unfolding by_count by_offset
by_count-nil offset lo = refl

by_count-before :
    (d : Data) (ds : List Data) (offset lo : ℕ)
    → ltb offset lo ≡ true
    → by_count offset lo (d ∷ ds) ≡ err argument
unfolding by_count
by_count-before d ds offset lo before =
    let unseen : leb lo offset ≡ false = ground arith in rw unseen

-- What comes before the data is in none of them.
by_offset-below :
    (ds : List Data) (offset lo : ℕ)
    → Placed lo ds
    → All IsText ds
    → lo + room ds < 2 ^ 64
    → offset < lo
    → by_offset offset ds ≡ err argument
unfolding Placed by_offset
by_offset-below [] offset lo placed text small lt = refl
by_offset-below (d ∷ ds) offset lo placed text small lt =
    let (above, _, close) = roundup64_lem lo d.d_align text.0.positive (omega arith) in
    let out : (leb d.d_off offset && ltb offset (add64 d.d_off d.d_size)) ≡ false =
      ground (arith, above, placed.0) in
    by_offset-text d text.0 offset ds
    ∙ rw out (
        by_offset-below ds offset (d.d_off + d.d_size) placed.1 text.1
          (omega (arith, close, placed.0)) (omega (arith, above, placed.0)))

-- The tests of the two loops, behind the alignment.
by_place :
    (d : Data) (ds : List Data) (offset : ℕ)
    → d.d_off + d.d_size + room ds < 2 ^ 64
    → add64 d.d_off d.d_size ≡ d.d_off + d.d_size
    → All IsText ds
    → Placed (d.d_off + d.d_size) ds
    → by_count offset (d.d_off + d.d_size) ds ≡ by_offset offset ds
    → (if leb d.d_off offset && ltb offset (add64 d.d_off d.d_size)
        then ok (d.d_buf + offset - d.d_off)
        else by_offset offset ds)
      ≡ (if ltb offset d.d_off
          then err argument
          else if ltb offset (add64 d.d_off d.d_size)
          then ok (d.d_buf + offset - d.d_off)
          else by_count offset (add64 d.d_off d.d_size) ds)
by_place d ds offset fits next text placed rest = elim (Bool-cases (ltb offset d.d_off)) [
  | inl hole ↦
      let below : leb d.d_off offset ≡ false = ground arith in
      let before = ltb→lt offset d.d_off hole in
      rw (below, hole)
        (by_offset-below ds offset (d.d_off + d.d_size) placed text fits (omega arith))
  | inr seen ↦
      let there : leb d.d_off offset ≡ true = ground arith in
      elim (Bool-cases (ltb offset (add64 d.d_off d.d_size))) [
        | inl inside ↦ rw (there, seen, inside)
        | inr past ↦ rw (there, seen, past, next) (sym rest)
      ]
]

-- The two loops find the same.
by_count-by_offset :
    (ds : List Data) (offset lo : ℕ)
    → Placed lo ds
    → All IsText ds
    → lo + room ds < 2 ^ 64
    → by_count offset lo ds ≡ by_offset offset ds
unfolding Placed
by_count-by_offset [] offset lo placed text small = by_count-nil offset lo
by_count-by_offset (d ∷ ds) offset lo placed text small =
    let (above, _, close) = roundup64_lem lo d.d_align text.0.positive (omega arith) in
    let at : aligned_count lo d.d_align ≡ d.d_off =
      aligned_count-text d text.0 lo (omega arith) ∙ sym placed.0 in
    let next : add64 d.d_off d.d_size ≡ d.d_off + d.d_size = omega (arith, close, placed.0) in
    let fits : d.d_off + d.d_size + room ds < 2 ^ 64 = omega (arith, close, placed.0) in
    elim (Bool-cases (ltb offset lo)) [
      | inl before ↦
          by_count-before d ds offset lo before
          ∙ sym (by_offset-below (d ∷ ds) offset lo placed text small (ltb→lt _ _ before))
      | inr seen ↦
          by_count-text d text.0 offset lo d.d_off ds at (not_ltb→le _ _ seen)
          ∙ sym (
              by_offset-text d text.0 offset ds
              ∙ by_place d ds offset fits next text.1 placed.1
                  (by_count-by_offset ds offset _ placed.1 text.1 fits))
    ]

byte_msize : (ec : ElfClass) → msize t_byte ec ev_current ≡ 1
unfolding msize memory_size file_size
byte_msize class_none = refl
byte_msize class_32 = refl
byte_msize class_64 = refl

byte_fsize : (ec : ElfClass) (n : ℕ) → n < 2 ^ 64 → (fsize (some t_byte) ec ev_current n).0 ≡ n
unfolding fsize file_size
byte_fsize class_none n small = omega arith
byte_fsize class_32 n small = omega arith
byte_fsize class_64 n small = omega arith

-- The place that the layout gives to some bytes.
place_data-text :
    (e : Elf) (d : Data) (lo : ℕ)
    → IsText d
    → by_application e ≡ false
    → e.e_version ≡ ev_current
    → place_data e d t_byte (msize t_byte e.e_class e.e_version) lo
      ≡ (add64 (roundup64 lo d.d_align) d.d_size, record d { d_off = roundup64 lo d.d_align })
unfolding place_data
place_data-text e d lo text no_app current =
    let one : msize t_byte e.e_class e.e_version ≡ 1 = rw current (byte_msize e.e_class) in
    let whole : d.d_size / 1 ≡ d.d_size = omega arith in
    let size : (fsize (some t_byte) e.e_class d.d_version d.d_size).0 ≡ d.d_size =
      rw text.current (byte_fsize e.e_class d.d_size text.fits) in
    rw (no_app, one, whole, size)

-- The layout by the library, of bytes.
data_extents-Placed :
    (e : Elf) (ds ds2 : List Data) (lo al hi al2 : ℕ)
    → by_application e ≡ false
    → e.e_version ≡ ev_current
    → All IsText ds
    → lo + room ds < 2 ^ 64
    → data_extents e ds lo al ≡ (ok (hi, al2), ds2)
    → Placed lo ds2 × All IsText ds2 × (room ds2 ≡ room ds)
unfolding data_extents Placed
data_extents-Placed e [] ds2 lo al hi al2 no_app current text small h =
    let same : [] ≡ ds2 = ap (λ r. r.1) h in rw (← same) (tt, tt, refl)
data_extents-Placed e (d ∷ ds) ds2 lo al hi al2 no_app current text small h =
    let (t, msz, ds', checked, rest, joined) = data_extents-cons e d ds ds2 lo al hi al2 h in
    let (typed, size, pos) = check_data-ok e d t msz checked in
    let byte : t ≡ t_byte = ground (arith, typed, text.0.bytes) in
    let (above, _, close) = roundup64_lem lo d.d_align text.0.positive (omega arith) in
    let place : place_data e d t msz lo
        ≡ (add64 (roundup64 lo d.d_align) d.d_size, record d { d_off = roundup64 lo d.d_align }) =
      rw (size, byte) (place_data-text e d lo text.0 no_app current) in
    let next : add64 (roundup64 lo d.d_align) d.d_size ≡ roundup64 lo d.d_align + d.d_size =
      omega (arith, close) in
    let (placed, text', same_room) =
      data_extents-Placed e ds ds' (roundup64 lo d.d_align + d.d_size) (larger al d.d_align) hi al2
        no_app current text.1 (omega (arith, close)) (rw (place, next) at rest) in
    rw (joined, place)
      (
        (refl, placed),
        (
          record {
            there = text.0.there;
            some_bytes = text.0.some_bytes;
            fits = text.0.fits;
            bytes = text.0.bytes;
            current = text.0.current;
            positive = text.0.positive;
            power = text.0.power;
          },
          text',
        ),
        ap (λ n. d.d_align + d.d_size + n) same_room,
      )

-- On data that the library has laid out, the loop of `elf_strptr` that counts the bytes finds at each
-- offset the same address, or the same error, as the loop that reads the offsets which the layout has
-- stored. Each of the data must be some bytes with a buffer, and what they need, padding included,
-- must stay below 2 ^ 64.
pub by_count-data_extents :
    (e : Elf) (ds ds2 : List Data) (hi align offset : ℕ)
    → by_application e ≡ false
    → e.e_version ≡ ev_current
    → All IsText ds
    → room ds < 2 ^ 64
    → data_extents e ds 0 0 ≡ (ok (hi, align), ds2)
    → by_count offset 0 ds2 ≡ by_offset offset ds2
by_count-data_extents e ds ds2 hi align offset no_app current text small h =
    let (placed, text', same_room) =
      data_extents-Placed e ds ds2 0 0 hi align no_app current text (omega arith) h in
    by_count-by_offset ds2 offset 0 placed text' (omega (arith, same_room, small))
