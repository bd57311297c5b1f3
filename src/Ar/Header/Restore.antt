-- ===== src/Ar/Header/Restore.antt =====
-- libelf/libelf_ar.c: what a failed translation of a header leaves.
use elftoolchain_libelf.Base.{
  ℕ, ◌+◌, ◌^◌, ◌<◌, ◌≡◌, ◌≢◌, refl, sym, ap, ◌∙◌, ◌⊎◌, inl, inr, not, ◌||◌, bit_and, bit_or, ◌==◌,
  Bool-cases, Option-cases, min, ltb, length, arith,
}
use elftoolchain_libelf.Base.Bits.{
  bit, bit-lt, bit_not, bit-bit_and, bit-bit_or, bit-bit_not, bit-zero, bit_ext, bit_and-lt,
  bit_or-lt,
}
use elftoolchain_libelf.Base.Outcome.{Result, ok, err, fault, Malloc, granted, denied}
use elftoolchain_libelf.Ar.Archive.{Archive, is_ar, field, sarmag, ar_hdr_size}
use elftoolchain_libelf.Ar.Header.{
  Arhdr, Hdr, e_rawhdr, e_arhdr, Child, f_ar_header, finish_gethdr, gethdr_at, gethdr_checked,
  gethdr, read_arhdr,
}

-- Setting a flag that a word does not have, and clearing it again.
set_clear :
    (w flags mask : ℕ)
    → flags < 2 ^ w
    → mask < 2 ^ w
    → bit_and flags mask ≡ 0
    → bit_and (bit_or flags mask) (bit_not w mask) ≡ flags
set_clear w flags mask h k apart =
    bit_ext w (bit_and (bit_or flags mask) (bit_not w mask)) flags
      (bit_and-lt w (bit_or flags mask) (bit_not w mask) (bit_or-lt w flags mask h k) (omega arith))
      h
      λ i b.
        let at_bit : min (bit i flags) (bit i mask) ≡ 0 =
          sym (bit-bit_and i flags mask) ∙ ap (bit i) apart ∙ bit-zero i in
        omega (
          arith,
          at_bit,
          bit-bit_and i (bit_or flags mask) (bit_not w mask),
          bit-bit_or i flags mask,
          bit-bit_not w i mask k b,
          bit-lt i flags,
          bit-lt i mask,
        )

finish_gethdr-failed :
    (e : Child) (arh : ℕ) (r : Result Arhdr)
    → e.e_flags < 2 ^ 32
    → bit_and e.e_flags f_ar_header ≡ 0
    → e.e_hdr ≡ e_rawhdr arh
    → ((eh : Arhdr) → r ≢ ok eh)
    → (finish_gethdr (record e { e_flags = bit_or e.e_flags f_ar_header }) arh r).1 ≡ e
unfolding finish_gethdr
finish_gethdr-failed e arh (ok eh) h clear raw failed = absurd (failed eh refl)
finish_gethdr-failed e arh (err c) h clear raw failed =
    ground (arith, raw, set_clear 32 e.e_flags f_ar_header h (omega arith) clear)
finish_gethdr-failed e arh fault h clear raw failed =
    ground (arith, raw, set_clear 32 e.e_flags f_ar_header h (omega arith) clear)

finish_gethdr-result : (e : Child) (arh : ℕ) (r : Result Arhdr) → (finish_gethdr e arh r).0 ≡ r
unfolding finish_gethdr
finish_gethdr-result e arh (ok eh) = refl
finish_gethdr-result e arh (err c) = refl
finish_gethdr-result e arh fault = refl

-- The descriptor with the flag set.
abbrev flagged : Child → Child
flagged e = record e { e_flags = bit_or e.e_flags f_ar_header }

-- A call that has come to the translation of the header.
record Translated (e : Child) (r : Result Arhdr) (e' : Child) : Type 0 where
  arh : ℕ
  read : Result Arhdr
  raw : e.e_hdr ≡ e_rawhdr arh
  clear : bit_and e.e_flags f_ar_header ≡ 0
  finished : finish_gethdr (flagged e) arh read ≡ (r, e')

gethdr_checked-cases :
    (e e' : Child) (parent : Archive) (eh_mem name_mem raw_mem : Malloc) (hdr : Hdr)
    (r : Result Arhdr)
    → e.e_hdr ≡ hdr
    → gethdr_checked e parent eh_mem name_mem raw_mem hdr ≡ (r, e')
    → ((e' ≡ e) × ((eh : Arhdr) → r ≢ ok eh)) ⊎ Translated e r e'
unfolding gethdr_checked gethdr_at
gethdr_checked-cases e e' parent eh_mem name_mem raw_mem (e_arhdr eh) r at called =
    inl (ground (arith, called), λ x y. ground (arith, called, y))
gethdr_checked-cases e e' parent (denied errno) name_mem raw_mem (e_rawhdr arh) r at called =
    inl (ground (arith, called), λ x y. ground (arith, called, y))
gethdr_checked-cases e e' parent granted name_mem raw_mem (e_rawhdr arh) r at called =
    elim (Bool-cases (
      not (bit_and e.e_flags f_ar_header == 0)
      || not (is_ar parent.e_kind)
      || ltb arh sarmag
      || ltb (length parent.e_rawfile) (arh + ar_hdr_size))) [
        | inl fails ↦ inl (ground (arith, called, fails), λ x y. ground (arith, called, fails, y))
        | inr passes ↦ inr (record {
          arh = arh;
          read =
              read_arhdr parent (field parent.e_rawfile arh ar_hdr_size) (arh + ar_hdr_size)
                name_mem raw_mem;
          raw = at;
          clear = ground (arith, passes);
          finished = ground (arith, called, passes);
        })
      ]

gethdr-cases :
    (e e' : Child) (eh_mem name_mem raw_mem : Malloc) (r : Result Arhdr)
    → gethdr e eh_mem name_mem raw_mem ≡ (r, e')
    → ((e' ≡ e) × ((eh : Arhdr) → r ≢ ok eh)) ⊎ Translated e r e'
unfolding gethdr
gethdr-cases e e' eh_mem name_mem raw_mem r called = elim (Option-cases e.e_parent) [
  | inl none_above ↦
      inl (ground (arith, called, none_above), λ x y. ground (arith, called, none_above, y))
  | inr (parent, above) ↦
      gethdr_checked-cases e e' parent eh_mem name_mem raw_mem e.e_hdr r refl
        (ground (arith, called, above))
]

-- A call of `gethdr` that fails, for whatever reason, leaves the member as it was: its header stays
-- untranslated, and the flag is clear again.
pub gethdr-failed :
    (e e' : Child) (eh_mem name_mem raw_mem : Malloc) (r : Result Arhdr)
    → e.e_flags < 2 ^ 32
    → gethdr e eh_mem name_mem raw_mem ≡ (r, e')
    → ((eh : Arhdr) → r ≢ ok eh)
    → e' ≡ e
gethdr-failed e e' eh_mem name_mem raw_mem r h called failed =
    elim (gethdr-cases e e' eh_mem name_mem raw_mem r called) [
      | inl (kept, no_header) ↦ kept
      | inr t ↦
          let result : t.read ≡ r =
            sym (finish_gethdr-result (flagged e) t.arh t.read) ∙ ap (λ x. x.0) t.finished in
          sym (ap (λ x. x.1) t.finished)
          ∙ finish_gethdr-failed e t.arh t.read h t.clear t.raw (λ eh y. failed eh (sym result ∙ y))
    ]
