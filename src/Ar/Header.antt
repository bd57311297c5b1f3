-- ===== src/Ar/Header.antt =====
-- libelf/libelf_ar.c: the header descriptors of archive members.
pub mod Restore
use elftoolchain_libelf.Base.{
  ℕ, ◌+◌, ◌-◌, ◌%◌, ◌^◌, Bool, true, false, not, ◌||◌, Option, none, some, List, drop, bit_and,
  bit_or, ◌==◌, if◌then◌else◌, length, ltb,
}
use elftoolchain_libelf.Base.Bits.{bit_not}
use elftoolchain_libelf.Base.Outcome.{
  Result, ok, err, fault, unset, argument, resource, ◌>>=◌, Malloc, granted, denied,
}
use elftoolchain_libelf.Ar.Number.{get_number}
use elftoolchain_libelf.Ar.Archive.{Archive, is_ar, field, ar_hdr_size, sarmag}
use elftoolchain_libelf.Ar.Name.{get_translated_name, get_raw_name, is_extended_bsd_name}

-- Elf_Arhdr. No function assigns `ar_date`.
pub record Arhdr : Type 0 where
  pub ar_name : List ℕ
  pub ar_uid : ℕ
  pub ar_gid : ℕ
  pub ar_mode : ℕ
  pub ar_size : ℕ
  pub ar_rawname : List ℕ
  pub ar_flags : ℕ

-- The union `e_hdr`: a header in the archive's file, by its offset, or its translation.
pub data Hdr : Type 0 where
  e_rawhdr : ℕ → Hdr
  e_arhdr : Arhdr → Hdr

-- struct _Elf, for a member of an archive.
pub record Child : Type 0 where
  pub e_flags : ℕ
  pub e_hdr : Hdr
  pub e_parent : Option Archive

-- LIBELF_F_AR_HEADER
abbrev pub f_ar_header : ℕ
f_ar_header = 0x010000

number_or : Option ℕ → Result ℕ
number_or none = err unset
number_or (some n) = ok n

-- The size of the member, without that of an appended name.
true_size : (ar_name : List ℕ) → (n : ℕ) → Result ℕ
unfolding number_or
true_size ar_name n =
    if is_extended_bsd_name ar_name
    then (number_or (get_number (drop 3 ar_name) 10) >>= λ nlen. ok ((n + 2 ^ 64 - nlen) % 2 ^ 64))
    else ok n

-- The members of the descriptor in the order of the code. A malformed number stops it, and sets no error
-- code.
read_arhdr :
    (parent : Archive) → (arh : List ℕ) → (place : ℕ) → (name_mem raw_mem : Malloc) → Result Arhdr
unfolding number_or true_size
read_arhdr parent arh place name_mem raw_mem = do
  name ← get_translated_name (field arh 0 16) place parent name_mem
  uid ← number_or (get_number (field arh 28 6) 10)
  gid ← number_or (get_number (field arh 34 6) 10)
  mode ← number_or (get_number (field arh 40 8) 8)
  n ← number_or (get_number (field arh 48 10) 10)
  size ← true_size (field arh 0 16) n
  rawname ← get_raw_name (field arh 0 16) raw_mem
  ok (record {
    ar_name = name;
    ar_uid = uid % 2 ^ 32;
    ar_gid = gid % 2 ^ 32;
    ar_mode = mode % 2 ^ 32;
    ar_size = size;
    ar_rawname = rawname;
    ar_flags = 0;
  })

-- What the label `error` and the end of the routine leave, for the descriptor after the flag was set.
finish_gethdr : Child → (arh : ℕ) → Result Arhdr → Result Arhdr × Child
finish_gethdr e arh (ok eh) = (ok eh, record e { e_hdr = e_arhdr eh })
finish_gethdr e arh r =
    (r, record e { e_flags = bit_and e.e_flags (bit_not 32 f_ar_header); e_hdr = e_rawhdr arh })

gethdr_at :
    Child
    → (parent : Archive) → (arh : ℕ) → (eh_mem name_mem raw_mem : Malloc) → Result Arhdr × Child
unfolding read_arhdr finish_gethdr
gethdr_at e parent arh (denied errno) name_mem raw_mem = (err (resource 0), e)
gethdr_at e parent arh granted name_mem raw_mem =
    finish_gethdr (record e { e_flags = bit_or e.e_flags f_ar_header }) arh
      (read_arhdr parent (field parent.e_rawfile arh ar_hdr_size) (arh + ar_hdr_size) name_mem
        raw_mem)

-- The assertions, with those of `_libelf_ar_get_translated_name`.
gethdr_checked :
    Child → (parent : Archive) → (eh_mem name_mem raw_mem : Malloc) → Hdr → Result Arhdr × Child
unfolding gethdr_at
gethdr_checked e parent eh_mem name_mem raw_mem (e_arhdr eh) = (fault, e)
gethdr_checked e parent eh_mem name_mem raw_mem (e_rawhdr arh) =
    if not (bit_and e.e_flags f_ar_header == 0)
      || not (is_ar parent.e_kind)
      || ltb arh sarmag
      || ltb (length parent.e_rawfile) (arh + ar_hdr_size)
    then (fault, e)
    else gethdr_at e parent arh eh_mem name_mem raw_mem

-- `_libelf_ar_gethdr`: the value returned, and the member's descriptor after it. Each call of `malloc` has
-- its answer.
unfoldable pub gethdr : Child → (eh_mem name_mem raw_mem : Malloc) → Result Arhdr × Child
unfolding gethdr_checked
gethdr e eh_mem name_mem raw_mem = elim e.e_parent [
  | none ↦ (err argument, e)
  | some parent ↦ gethdr_checked e parent eh_mem name_mem raw_mem e.e_hdr
]
