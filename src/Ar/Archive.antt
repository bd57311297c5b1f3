-- ===== src/Ar/Archive.antt =====
-- libelf/libelf_ar_util.c: opening an archive. libelf/elf_rand.c, libelf/elf_next.c: moving between
-- its members.
pub mod Next
use elftoolchain_libelf.Base.{
  ℕ, ◌+◌, ◌-◌, ◌%◌, ◌^◌, Bool, true, false, not, ◌&&◌, ◌||◌, Option, none, some, List, [], ◌∷◌,
  length, get_elem?, take, drop, leb, ltb, ◌==◌, if◌then◌else◌, bit_and, bit_or,
}
use elftoolchain_libelf.Base.Bits.{bit_not}
use elftoolchain_libelf.Base.Int.{ℤ, pos, negsuc}
use elftoolchain_libelf.Base.Outcome.{argument, archive, Result, ok, err, fault}
use elftoolchain_libelf.State.{
  is_read, ElfKind, k_none, k_ar, k_elf, k_coff, ElfCmd, c_null, c_read,
}
use elftoolchain_libelf.Ar.Number.{get_number}

-- struct _Elf, for an archive. The contents of the file are the bytes of `e_rawfile`; a pointer into
-- them is an offset, and NULL is `none`.
pub record Archive : Type 0 where
  pub e_kind : ElfKind
  pub e_cmd : ElfCmd
  pub e_flags : ℕ
  pub e_rawfile : List ℕ
  pub e_next : ℤ
  pub e_nchildren : ℕ
  pub e_rawstrtab : Option ℕ
  pub e_rawstrtabsz : ℕ
  pub e_rawsymtab : Option ℕ
  pub e_rawsymtabsz : ℕ

-- SARMAG, and sizeof(struct ar_hdr)
abbrev pub sarmag : ℕ
sarmag = 8

abbrev pub ar_hdr_size : ℕ
ar_hdr_size = 60

-- LIBELF_F_AR_VARIANT_SVR4
abbrev pub f_ar_variant_svr4 : ℕ
f_ar_variant_svr4 = 0x020000

-- A field of a header.
abbrev pub field : List ℕ → (offset size : ℕ) → List ℕ
field arh offset size = take size (drop offset arh)

abbrev pub byte_is : List ℕ → ℕ → ℕ → Bool
byte_is bytes i c = elim (get_elem? bytes i) [ none ↦ false | some b ↦ b == c ]

-- The name and the size in a member's header.
pub record Header : Type 0 where
  pub ar_name : List ℕ
  pub ar_size : ℕ

-- The number in the field `ar_size`.
header_size : List ℕ → Option ℕ → Option Header
header_size arh none = none
header_size arh (some sz) = some (record { ar_name = field arh 0 16; ar_size = sz })

-- READ_AR_HEADER; `none` is the jump to `error`.
read_ar_header : List ℕ → (s : ℕ) → Option Header
unfolding header_size
read_ar_header file s =
    let arh = field file s ar_hdr_size in
    if ltb (length file) (s + ar_hdr_size)
    then none
    else if not (byte_is arh 58 96) || not (byte_is arh 59 10)
    then none
    else header_size arh (get_number (field arh 48 10) 10)

-- LIBELF_ADJUST_AR_SIZE: `~1U` has 32 bits.
unfoldable pub adjust_ar_size : ℕ → ℕ
adjust_ar_size s = bit_and ((s + 1) % 2 ^ 64) (bit_not 32 1)

-- The symbol table, or the string table, is the member whose header is at `s`.
abbrev pub set_symtab : Archive → (s sz : ℕ) → Archive
set_symtab e s sz = record e { e_rawsymtab = some (s + ar_hdr_size); e_rawsymtabsz = sz }

abbrev set_strtab : Archive → (s sz : ℕ) → Archive
set_strtab e s sz = record e { e_rawstrtab = some (s + ar_hdr_size); e_rawstrtabsz = sz }

-- The place after a special member.
past_member : (s sz : ℕ) → ℕ
unfolding adjust_ar_size
past_member s sz = s + ar_hdr_size + adjust_ar_size sz

-- The descriptor after the scan, and the place where it ended; `none` is the jump to `error`.
abbrev Scan : Type 0
Scan = Archive × Option ℕ

is_strtab : List ℕ → Bool
is_strtab name = byte_is name 0 47 && byte_is name 1 47 && byte_is name 2 32

-- The part under `scanahead`.
scan_strtab : Archive → (s : ℕ) → Option Header → Scan
unfolding is_strtab past_member
scan_strtab e s none = (e, none)
scan_strtab e s (some arh) =
    if is_strtab arh.ar_name
    then (set_strtab e s arh.ar_size, some (past_member s arh.ar_size))
    else (e, some s)

-- The special members of an SVR4 archive.
scan_svr4 : Archive → (s : ℕ) → Header → Scan
unfolding read_ar_header scan_strtab
scan_svr4 e s arh =
    let next = past_member s arh.ar_size in
    if byte_is arh.ar_name 1 32
    then scan_strtab (set_symtab e s arh.ar_size) next (read_ar_header e.e_rawfile next)
    else if byte_is arh.ar_name 1 47 && byte_is arh.ar_name 2 32
    then (set_strtab e s arh.ar_size, some next)
    else (e, some s)

-- "__.SYMDEF"
is_symdef : List ℕ → Bool
is_symdef name =
    byte_is name 0 95
    && byte_is name 1 95
    && byte_is name 2 46
    && byte_is name 3 83
    && byte_is name 4 89
    && byte_is name 5 77
    && byte_is name 6 68
    && byte_is name 7 69
    && byte_is name 8 70

scan_first : Archive → (s : ℕ) → Option Header → Scan
unfolding scan_svr4 is_symdef
scan_first e s none = (e, none)
scan_first e s (some arh) =
    if byte_is arh.ar_name 0 47
    then if arh.ar_size == 0
      then (e, none)
      else scan_svr4 (record e { e_flags = bit_or e.e_flags f_ar_variant_svr4 }) s arh
    else if is_symdef arh.ar_name
    then (set_symtab e s arh.ar_size, some (past_member s arh.ar_size))
    else (e, some s)

finish_open : (reporterror : Bool) → Scan → Result (Unit {0}) × Archive
finish_open reporterror (e, some s) = (ok tt, record e { e_next = pos s })
finish_open true (e, none) = (err archive, e)
finish_open false (e, none) = (ok tt, record e { e_kind = k_none })

is_none : ElfKind → Bool
is_none k_none = true
is_none k = false

-- `_libelf_ar_open`, with `_libelf_init_elf`: the value returned, which is the descriptor or NULL, and the descriptor after it.
unfoldable pub ar_open : Archive → (reporterror : Bool) → Result (Unit {0}) × Archive
unfolding scan_first finish_open is_none
ar_open e reporterror =
    let start = record e { e_kind = k_ar; e_nchildren = 0; e_next = negsuc 0 } in
    if not (is_none e.e_kind) || length e.e_rawfile == 0
    then (fault, e)
    else finish_open reporterror (scan_first start sarmag (read_ar_header e.e_rawfile sarmag))

abbrev pub is_ar : ElfKind → Bool
is_ar k_ar = true
is_ar k = false

rand_at : Archive → ℕ → Result ℕ × Archive
rand_at ar offset =
    let arh = field ar.e_rawfile offset ar_hdr_size in
    if not (is_ar ar.e_kind)
      || not (bit_and offset 1 == 0)
      || ltb offset sarmag
      || leb (length ar.e_rawfile) ((offset + ar_hdr_size) % 2 ^ 64)
    then (err argument, ar)
    else if not (byte_is arh 58 96) || not (byte_is arh 59 10)
    then (err archive, ar)
    else (ok offset, record ar { e_next = pos offset })

-- `elf_rand` on a descriptor that is not NULL; a negative offset is below SARMAG.
unfoldable pub elf_rand : Archive → ℤ → Result ℕ × Archive
unfolding rand_at
elf_rand ar (pos offset) = rand_at ar offset
elf_rand ar (negsuc n) = (err argument, ar)

-- A member: the place of its contents in the archive, and their size.
pub record Member : Type 0 where
  pub e_rawfile : ℕ
  pub e_rawsize : ℕ

-- (next + 1) & ~1, on the pattern of an off_t
unfoldable pub round_even : ℕ → ℕ
round_even next = bit_and ((next + 1) % 2 ^ 64) (bit_not 64 1)

-- The comparison is on off_t values: a negative `next` is below the size of the file, and is stored.
abbrev pub next_place : (next rawsize : ℕ) → ℤ
next_place next rawsize =
    if leb (2 ^ 63) next
    then negsuc (2 ^ 64 - 1 - next)
    else if leb rawsize next
    then pos 0
    else pos next

-- `elf_next` on a member whose archive is `parent`: the command returned, and the archive after it.
unfoldable pub elf_next : Member → (parent : Option Archive) → Result ElfCmd × Option Archive
unfolding round_even
elf_next e none = (err argument, none)
elf_next e (some parent) =
    if not (is_ar parent.e_kind) || not (is_read parent.e_cmd) || e.e_rawfile == 0
    then (fault, some parent)
    else (
      ok c_read,
      some (record parent {
        e_next =
            next_place (round_even ((e.e_rawfile + e.e_rawsize) % 2 ^ 64))
              (length parent.e_rawfile);
      }),
    )
