-- ===== src/Ar/Name.antt =====
-- libelf/libelf_ar_util.c: the names of archive members.
pub mod Plain
use elftoolchain_libelf.Base.{
  ℕ, zero, suc, ◌+◌, ◌-◌, ◌<◌, ◌≤◌, ◌≡◌, ◌≢◌, refl, sym, ap, ◌∙◌, inl, inr, Bool, true, false, not,
  ◌&&◌, ◌||◌, Option, none, some, List, [], ◌∷◌, ◌++◌, length, get_elem?, take, drop, replicate,
  leb, ltb, ◌==◌, if◌then◌else◌, All, Bool-cases, arith,
}
use elftoolchain_libelf.Base.Outcome.{
  Result, ok, err, fault, archive, resource, ◌>>=◌, Malloc, granted, denied,
}
use elftoolchain_libelf.Ar.Number.{get_number}
use elftoolchain_libelf.Ar.Archive.{Archive, byte_is}

-- A result of `malloc` that is NULL gives the error RESOURCE, without an `errno`.
abbrev pub allocated {ℓ} : {A : Type ℓ} → Malloc → A → Result A
allocated (denied errno) a = err (resource 0)
allocated granted a = ok a

-- The string that `strncpy` leaves of at most `n` bytes.
unfoldable pub copy_string : (n : ℕ) → List ℕ → Result (List ℕ)
copy_string zero bytes = ok []
copy_string (suc n) [] = fault
copy_string (suc n) (c ∷ bytes) =
    let rest = copy_string n bytes in if c == 0 then ok [] else (rest >>= λ s. ok (c ∷ s))

-- The number of the bytes in front of a '/', among `left` bytes.
slash_length : (left : ℕ) → List ℕ → Result ℕ
slash_length zero bytes = ok 0
slash_length (suc left) [] = fault
slash_length (suc left) (c ∷ bytes) =
    let rest = slash_length left bytes in if c == 47 then ok 0 else (rest >>= λ n. ok (n + 1))

-- The bytes of the file from a pointer on.
abbrev from_pointer : List ℕ → Option ℕ → (offset : ℕ) → List ℕ
from_pointer file none offset = []
from_pointer file (some p) offset = drop (p + offset) file

-- The name at an offset in the string table.
string_name : Archive → Malloc → (offset : ℕ) → Result (List ℕ)
unfolding copy_string slash_length
string_name ar mem offset =
    let q = from_pointer ar.e_rawfile ar.e_rawstrtab offset in
    if ltb ar.e_rawstrtabsz offset
    then err archive
    else (slash_length (ar.e_rawstrtabsz - offset) q >>= λ len.
        allocated mem len >>= λ n. copy_string n q)

-- The name behind the header, which ends at `place`.
appended_name : Archive → Malloc → (place len : ℕ) → Result (List ℕ)
unfolding copy_string
appended_name ar mem place len = allocated mem len >>= λ n. copy_string n (drop place ar.e_rawfile)

-- Trailing blanks are skipped.
trim_blanks : List ℕ → List ℕ
trim_blanks [] = []
trim_blanks (c ∷ s) =
    let rest = trim_blanks s in if (length rest == 0) && (c == 32) then [] else c ∷ rest

-- Whether the trailing '/' of a name of `n` bytes is dropped.
drops_slash : List ℕ → (n : ℕ) → Bool
drops_slash name n = byte_is name (n - 1) 47 && (ltb 2 n || ((n == 2) && not (byte_is name 0 47)))

-- A name in the field itself.
plain_name : Malloc → List ℕ → Result (List ℕ)
unfolding trim_blanks drops_slash copy_string
plain_name mem ar_name =
    let n = length (trim_blanks ar_name) in
    let len = if drops_slash ar_name n then n - 1 else n in
    allocated mem len >>= λ k. copy_string k ar_name

is_digit_at : List ℕ → ℕ → Bool
is_digit_at name i = elim (get_elem? name i) [ none ↦ false | some c ↦ leb 48 c && leb c 57 ]

-- IS_EXTENDED_BSD_NAME
unfoldable pub is_extended_bsd_name : List ℕ → Bool
is_extended_bsd_name name = byte_is name 0 35 && byte_is name 1 49 && byte_is name 2 47

with_number : Option ℕ → (ℕ → Result (List ℕ)) → Result (List ℕ)
with_number none next = err archive
with_number (some n) next = next n

-- `_libelf_ar_get_translated_name` on a header inside the file of `ar`, with the name field `ar_name`,
-- that ends at `place`.
unfoldable pub get_translated_name :
    (ar_name : List ℕ) → (place : ℕ) → Archive → Malloc → Result (List ℕ)
unfolding string_name appended_name plain_name is_digit_at is_extended_bsd_name with_number
get_translated_name ar_name place ar mem =
    if byte_is ar_name 0 47 && is_digit_at ar_name 1
    then with_number (get_number (drop 1 ar_name) 10) (string_name ar mem)
    else if is_extended_bsd_name ar_name
    then with_number (get_number (drop 3 ar_name) 10) (appended_name ar mem place)
    else plain_name mem ar_name

-- `_libelf_ar_get_raw_name`
unfoldable pub get_raw_name : (ar_name : List ℕ) → Malloc → Result (List ℕ)
unfolding copy_string
get_raw_name ar_name mem = allocated mem 16 >>= λ n. copy_string n ar_name
