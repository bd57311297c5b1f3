-- ===== src/Ar/Name/Plain.antt =====
-- libelf/libelf_ar_util.c: names that fit the field of the header.
use elftoolchain_libelf.Base.{
  ℕ, zero, suc, ◌<◌, ◌≡◌, ◌≢◌, refl, false, some, List, [], ◌∷◌, ◌++◌, length, get_elem?, replicate,
  All, length-append, arith,
}
use elftoolchain_libelf.Base.Outcome.{ok, granted}
use elftoolchain_libelf.Ar.Archive.{Archive, byte_is}
use elftoolchain_libelf.Ar.Name.{
  copy_string, trim_blanks, drops_slash, plain_name, is_extended_bsd_name, get_translated_name,
}

-- A byte of a plain name: neither NUL, nor a blank, nor '/'.
abbrev pub IsNameChar : ℕ → Type 0
IsNameChar c = (c ≢ 0) × (c ≢ 32) × (c ≢ 47)

copy_string-append :
    (s rest : List ℕ) → All IsNameChar s → copy_string (length s) (s ++ rest) ≡ ok s
unfolding copy_string
copy_string-append [] rest all = refl
copy_string-append (c ∷ s) rest all = ground (arith, copy_string-append s rest all.1)

trim-blanks : (k : ℕ) → trim_blanks (replicate k 32) ≡ []
unfolding trim_blanks
trim-blanks zero = refl
trim-blanks (suc k) = ground (arith, trim-blanks k)

trim_blanks-append :
    (s : List ℕ) (c k : ℕ)
    → All (λ x. x ≢ 32) s
    → c ≢ 32
    → trim_blanks (s ++ (c ∷ replicate k 32)) ≡ s ++ (c ∷ [])
unfolding trim_blanks
trim_blanks-append [] c k all h = ground (arith, trim-blanks k)
trim_blanks-append (x ∷ s) c k all h = ground (arith, trim_blanks-append s c k all.1 h)

get_elem?-append : (s rest : List ℕ) (c : ℕ) → get_elem? (s ++ (c ∷ rest)) (length s) ≡ some c
get_elem?-append [] rest c = refl
get_elem?-append (x ∷ s) rest c = ground (arith, get_elem?-append s rest c)

All-no_blank : (s : List ℕ) → All IsNameChar s → All (λ x. x ≢ 32) s
All-no_blank [] all = tt
All-no_blank (c ∷ s) all = (all.0.1, All-no_blank s all.1)

plain_name-slash :
    (c : ℕ) (s : List ℕ) (k : ℕ)
    → All IsNameChar (c ∷ s)
    → plain_name granted ((c ∷ s) ++ (47 ∷ replicate k 32)) ≡ ok (c ∷ s)
unfolding plain_name drops_slash
plain_name-slash c s k all = ground (
  arith,
  trim_blanks-append (c ∷ s) 47 k (All-no_blank (c ∷ s) all) (λ e. ground (arith, e)),
  length-append (c ∷ s) (47 ∷ []),
  get_elem?-append (c ∷ s) (replicate k 32) 47,
  copy_string-append (c ∷ s) (47 ∷ replicate k 32) all,
)

-- A name of one or more bytes, none of them a NUL, a blank or a '/', that is closed by a '/' and blanks, as
-- in an SVR4 archive, is translated to itself where memory is granted. The closed name must not look
-- like the "#1/" of an extended BSD name.
pub get_translated_name-slash :
    (c : ℕ) (s : List ℕ) (k place : ℕ) (ar : Archive)
    → All IsNameChar (c ∷ s)
    → is_extended_bsd_name ((c ∷ s) ++ (47 ∷ replicate k 32)) ≡ false
    → get_translated_name ((c ∷ s) ++ (47 ∷ replicate k 32)) place ar granted ≡ ok (c ∷ s)
unfolding get_translated_name
get_translated_name-slash c s k place ar all plain =
    ground (arith, plain, plain_name-slash c s k all)

trim_blanks-padded :
    (s : List ℕ) (k : ℕ) → All (λ x. x ≢ 32) s → trim_blanks (s ++ replicate k 32) ≡ s
unfolding trim_blanks
trim_blanks-padded [] k all = trim-blanks k
trim_blanks-padded (x ∷ s) k all = ground (arith, trim_blanks-padded s k all.1)

no_slash :
    (s rest : List ℕ) (i : ℕ) → All IsNameChar s → i < length s → byte_is (s ++ rest) i 47 ≡ false
no_slash [] rest i all h = ground (arith, h)
no_slash (x ∷ s) rest zero all h = ground arith
no_slash (x ∷ s) rest (suc i) all h = no_slash s rest i all.1 (omega (arith, h))

plain_name-padded :
    (c : ℕ) (s : List ℕ) (k : ℕ)
    → All IsNameChar (c ∷ s)
    → plain_name granted ((c ∷ s) ++ replicate k 32) ≡ ok (c ∷ s)
unfolding plain_name drops_slash
plain_name-padded c s k all = ground (
  arith,
  trim_blanks-padded (c ∷ s) k (All-no_blank (c ∷ s) all),
  no_slash (c ∷ s) (replicate k 32) (length s) all (omega arith),
  copy_string-append (c ∷ s) (replicate k 32) all,
)

-- A name of one or more bytes, none of them a NUL, a blank or a '/', that is padded with blanks, as in a
-- BSD archive, and is not extended, is translated to itself where memory is granted.
pub get_translated_name-padded :
    (c : ℕ) (s : List ℕ) (k place : ℕ) (ar : Archive)
    → All IsNameChar (c ∷ s)
    → is_extended_bsd_name ((c ∷ s) ++ replicate k 32) ≡ false
    → get_translated_name ((c ∷ s) ++ replicate k 32) place ar granted ≡ ok (c ∷ s)
unfolding get_translated_name
get_translated_name-padded c s k place ar all plain =
    ground (arith, plain, plain_name-padded c s k all)
