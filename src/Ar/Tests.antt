-- ===== src/Ar/Tests.antt =====
-- Runs of the archive functions, and their theorems at a small SVR4 archive.
use elftoolchain_libelf.Base.{
  ℕ, ◌+◌, ◌<◌, ◌≤◌, ◌≡◌, ◌≢◌, ◌⊎◌, refl, inr, true, none, some, List, [], ◌∷◌, ◌++◌, length,
  replicate, arith,
}
use elftoolchain_libelf.Base.Int.{pos, negsuc}
use elftoolchain_libelf.Base.Outcome.{ok, err, fault, argument, granted}
use elftoolchain_libelf.State.{k_none, k_ar, c_read}
use elftoolchain_libelf.Hash.{elf_hash}
use elftoolchain_libelf.Ar.Number.{get_number, digit_chars, digits_value, get_number-digits}
use elftoolchain_libelf.Ar.Archive.{Archive, Member, ar_open, elf_rand, elf_next, adjust_ar_size}
use elftoolchain_libelf.Ar.Archive.Next.{
  IsPlace, IsNext, opened, moved, next, ar_open-ok, Reachable-IsNext, elf_next-advances,
}
use elftoolchain_libelf.Ar.Symtab.{Arsym, Table, sentinel, process_svr4_symtab}
use elftoolchain_libelf.Ar.Symtab.Entries.{IsTableOf, process_svr4_symtab-ok}
use elftoolchain_libelf.Ar.Symtab.Safe.{process_svr4_symtab-IsSafe}
use elftoolchain_libelf.Ar.Name.{get_translated_name, get_raw_name, is_extended_bsd_name}
use elftoolchain_libelf.Ar.Name.Plain.{IsNameChar, get_translated_name-slash}
use elftoolchain_libelf.Ar.Header.{Arhdr, e_rawhdr, e_arhdr, Child, gethdr}
use elftoolchain_libelf.Ar.Header.Restore.{gethdr-failed}
use elftoolchain_libelf.Base.{All, false}
use elftoolchain_libelf.Base.Outcome.{unset}
use elftoolchain_libelf.Ar.BsdSymtab.{Host, process_bsd_symtab}
use elftoolchain_libelf.Base.{◌*◌, ◌-◌, ◌^◌, ltb, if◌then◌else◌}

-- " 12 "
get_number-digits_example :
    get_number (replicate 1 32 ++ (digit_chars (1 ∷ 2 ∷ []) ++ (32 ∷ []))) 10
    ≡ some (digits_value 10 0 (1 ∷ 2 ∷ []))
get_number-digits_example =
    get_number-digits 10 1 1 (2 ∷ []) (32 ∷ []) (inr refl) (omega arith) (omega arith, tt)
      (omega arith) refl

not_a_number : get_number (49 ∷ 120 ∷ []) 10 ≡ none
unfolding get_number
not_a_number = refl

-- A header with the name and the size in its fields, and blanks in the others.
abbrev header_of : (name size : List ℕ) → List ℕ
header_of name size = name ++ (replicate 32 32 ++ (size ++ (96 ∷ 10 ∷ [])))

-- "/", of 11 bytes: one symbol "ab", with the offset 8
abbrev symtab_member : List ℕ
symtab_member =
    header_of (47 ∷ replicate 15 32) (49 ∷ 49 ∷ replicate 8 32)
    ++ (0 ∷ 0 ∷ 0 ∷ 1 ∷ 0 ∷ 0 ∷ 0 ∷ 8 ∷ 97 ∷ 98 ∷ 0 ∷ 10 ∷ [])

-- "//", of 2 bytes
abbrev strtab_member : List ℕ
strtab_member = header_of (47 ∷ 47 ∷ replicate 14 32) (50 ∷ replicate 9 32) ++ (97 ∷ 10 ∷ [])

-- "!<arch>\n" and the two members
abbrev small_file : List ℕ
small_file = 33 ∷ 60 ∷ 97 ∷ 114 ∷ 99 ∷ 104 ∷ 62 ∷ 10 ∷ (symtab_member ++ strtab_member)

abbrev unopened : Archive
unopened = record {
  e_kind = k_none;
  e_cmd = c_read;
  e_flags = 0;
  e_rawfile = small_file;
  e_next = pos 0;
  e_nchildren = 0;
  e_rawstrtab = none;
  e_rawstrtabsz = 0;
  e_rawsymtab = none;
  e_rawsymtabsz = 0;
}

abbrev small_archive : Archive
small_archive = record unopened {
  e_kind = k_ar;
  e_flags = 0x20000;
  e_next = pos 142;
  e_rawstrtab = some 140;
  e_rawstrtabsz = 2;
  e_rawsymtab = some 68;
  e_rawsymtabsz = 11;
}

open_small : ar_open unopened true ≡ (ok tt, small_archive)
unfolding ar_open get_number
open_small = refl

rand_odd : elf_rand small_archive (pos 9) ≡ (err argument, small_archive)
unfolding elf_rand
rand_odd = refl

rand_strtab : elf_rand small_archive (pos 80) ≡ (ok 80, record small_archive { e_next = pos 80 })
unfolding elf_rand
rand_strtab = refl

-- The size of a special member is taken modulo 2 ^ 32.
adjust_large : adjust_ar_size 0x1_0000_0003 ≡ 4
unfolding adjust_ar_size
adjust_large = refl

-- The symbol table as a member.
abbrev symtab_contents : Member
symtab_contents = record { e_rawfile = 68; e_rawsize = 11 }

next_strtab :
    elf_next symtab_contents (some small_archive)
    ≡ (ok c_read, some (record small_archive { e_next = pos 80 }))
unfolding elf_next
next_strtab = refl

is_archive : k_ar ≢ k_none
is_archive = λ e. ground (arith, e)

ar_open-ok_example : (k_ar ≡ k_none) ⊎ ((n : ℕ) × (pos 142 ≡ pos n) × IsPlace n)
ar_open-ok_example = ar_open-ok unopened small_archive true open_small

Reachable-IsNext_example : IsNext (pos 80)
Reachable-IsNext_example = Reachable-IsNext (
    moved small_archive (opened unopened true open_small is_archive)
      (next symtab_contents (ok c_read) next_strtab))

elf_next-advances_example :
    (pos 80 ≡ pos 0) ⊎ ((n : ℕ) × (pos 80 ≡ pos n) × (68 + 11 ≤ n) × (n < length small_file))
elf_next-advances_example =
    elf_next-advances small_archive (record small_archive { e_next = pos 80 }) symtab_contents
      (omega arith) next_strtab

abbrev small_table : Table
small_table = record { e_rawfile = small_file; e_rawsymtab = 68; e_rawsymtabsz = 11 }

abbrev small_symtab : List Arsym
small_symtab = record { as_off = 8; as_hash = 1650; as_name = some 76 } ∷ sentinel ∷ []

read_small : process_svr4_symtab small_table granted ≡ ok (small_symtab, 2)
unfolding process_svr4_symtab elf_hash
read_small = refl

process_svr4_symtab-ok_example : (n : ℕ) × IsTableOf small_table small_symtab 2 n
process_svr4_symtab-ok_example =
    process_svr4_symtab-ok small_table granted small_symtab 2 read_small

process_svr4_symtab-IsSafe_example : process_svr4_symtab small_table granted ≢ fault
process_svr4_symtab-IsSafe_example =
    process_svr4_symtab-IsSafe small_table granted 78 refl (omega arith) refl

-- "ab"
ab-IsNameChar : All IsNameChar (97 ∷ 98 ∷ [])
ab-IsNameChar = (
  (λ e. ground (arith, e), λ e. ground (arith, e), λ e. ground (arith, e)),
  ((λ e. ground (arith, e), λ e. ground (arith, e), λ e. ground (arith, e)), tt),
)

ab_slash-plain : is_extended_bsd_name (97 ∷ 98 ∷ 47 ∷ replicate 13 32) ≡ false
unfolding is_extended_bsd_name
ab_slash-plain = refl

ab_padded-plain : is_extended_bsd_name (97 ∷ 98 ∷ replicate 14 32) ≡ false
unfolding is_extended_bsd_name
ab_padded-plain = refl

get_translated_name-slash_example :
    get_translated_name (97 ∷ 98 ∷ 47 ∷ replicate 13 32) 140 small_archive granted
    ≡ ok (97 ∷ 98 ∷ [])
get_translated_name-slash_example =
    get_translated_name-slash 97 (98 ∷ []) 13 140 small_archive ab-IsNameChar ab_slash-plain

-- "/0" is the name "a\n" of the string table.
long_name :
    get_translated_name (47 ∷ 48 ∷ replicate 14 32) 140 small_archive granted ≡ ok (97 ∷ 10 ∷ [])
unfolding get_translated_name get_number
long_name = refl

-- An SVR4 member "#1" is taken for an extended BSD name of length 0.
hash_one : get_translated_name (35 ∷ 49 ∷ 47 ∷ replicate 13 32) 140 small_archive granted ≡ ok []
unfolding get_translated_name get_number
hash_one = refl

-- The string table as a member, and a place where there is no header.
abbrev child_at : ℕ → Child
child_at place = record { e_flags = 0; e_hdr = e_rawhdr place; e_parent = some small_archive }

abbrev strtab_arhdr : Arhdr
strtab_arhdr = record {
  ar_name = 47 ∷ 47 ∷ [];
  ar_uid = 0;
  ar_gid = 0;
  ar_mode = 0;
  ar_size = 2;
  ar_rawname = 47 ∷ 47 ∷ replicate 14 32;
  ar_flags = 0;
}

translate_strtab :
    gethdr (child_at 80) granted granted granted
    ≡ (ok strtab_arhdr, record (child_at 80) { e_flags = 0x10000; e_hdr = e_arhdr strtab_arhdr })
unfolding gethdr get_number get_translated_name get_raw_name
translate_strtab = refl

translate_nothing : gethdr (child_at 82) granted granted granted ≡ (err unset, child_at 82)
unfolding gethdr get_number get_translated_name get_raw_name
translate_nothing = refl

no_header : (eh : Arhdr) → err unset ≢ ok eh
no_header eh = λ e. ground (arith, e)

gethdr-failed_example : child_at 82 ≡ child_at 82
gethdr-failed_example =
    gethdr-failed (child_at 82) (child_at 82) granted granted granted (err unset) (omega arith)
      translate_nothing no_header

-- A host that has the least significant byte first.
abbrev little_endian : List ℕ → ℕ
little_endian [] = 0
little_endian (c ∷ s) = c + 256 * little_endian s

abbrev little_host : Host
little_host s = let n = little_endian s in if ltb n (2 ^ 63) then pos n else negsuc (2 ^ 64 - 1 - n)

-- An array of 16 bytes for the symbol "ab", at the offset 8, and a string table of 3 bytes.
abbrev bsd_file : List ℕ
bsd_file =
    (16 ∷ replicate 7 0)
    ++ (replicate 8 0 ++ ((8 ∷ replicate 7 0) ++ ((3 ∷ replicate 7 0) ++ (97 ∷ 98 ∷ 0 ∷ []))))

abbrev bsd_symtab : List Arsym
bsd_symtab = record { as_off = 8; as_hash = 1650; as_name = some 32 } ∷ sentinel ∷ []

-- The size of the string table is read behind the table.
bsd_overrun :
    process_bsd_symtab little_host
      (record { e_rawfile = 16 ∷ replicate 16 0; e_rawsymtab = 0; e_rawsymtabsz = 17 })
      granted
    ≡ fault
unfolding process_bsd_symtab
bsd_overrun = refl
