-- ===== src/Gelf/Entry/Table.antt =====
-- The shared part of the gelf_*.c functions on a consistent data descriptor: one whose section holds
-- entries of the type, and whose size is that of its entries.
use elftoolchain_libelf.Base.{
  ℕ, ◌*◌, ◌^◌, ◌≤◌, ◌<◌, ◌≡◌, ◌∙◌, ◌⊎◌, inl, inr, true, Option, none, some, leb, if◌then◌else◌,
  length, length-set, set, get_elem?, get_elem?-lt, get_elem?-ge, Bool-cases, leb→le, le→leb,
  lt→leb, Option-cases, arith,
}
use elftoolchain_libelf.Base.Int.{pos}
use elftoolchain_libelf.Base.Outcome.{argument, Result, ok, err}
use elftoolchain_libelf.Format.Types.{ElfClass, class_32, class_64, ElfType, is_type, ev_current}
use elftoolchain_libelf.Format.SectionType.{xlate_shtype}
use elftoolchain_libelf.Format.Size.{msize}
use elftoolchain_libelf.Gelf.Entry.{
  Descriptor, Section, LibelfData, Stored, check_entry, get_entry, update_entry, store_class,
  widen_class, stored_result,
}
use elftoolchain_libelf.Gelf.Entry.Laws.{Frame}
use native.Mathlib.Nat.{mod-eq_of_lt}

-- A 32-bit or a 64-bit object.
abbrev pub IsElfClass : ElfClass → Type 0
IsElfClass ec = (ec ≡ class_32) ⊎ (ec ≡ class_64)

pub record IsTable {A : Type 0} (t : ElfType) (ec : ElfClass) (d : LibelfData A) : Type 0 where
  pub scn : Section
  pub elf : Descriptor
  pub at_scn : d.d_scn ≡ some scn
  pub at_elf : scn.s_elf ≡ some elf
  pub class : elf.e_class ≡ ec
  pub version : elf.e_version ≡ ev_current
  pub holds : is_type (xlate_shtype scn.sh_type) t ≡ true
  pub sized : d.d_size ≡ msize t ec ev_current * length d.d_buf

pub scaled_test : (m len n : ℕ) → 0 < m → leb (m * len) (m * n) ≡ leb len n
scaled_test m len n h = elim (Bool-cases (leb len n)) [
  | inl below ↦ rw below (le→leb (m * len) (m * n) (le_of (leb→le len n below)))
  | inr above ↦ rw above (lt→leb (m * len) (m * n) (lt_of (ground (arith, above))))
]
  where
    le_of : len ≤ n → m * len ≤ m * n
    le_of p = grind arith

    lt_of : n < len → m * n < m * len
    lt_of p = grind arith

-- The entry at an index, in its class independent form, or the error for an index out of range.
abbrev pub found : {A : Type 0} → (A → A) → ElfClass → Option A → Result A
found widen ec none = err argument
found widen ec (some a) = ok (widen_class ec widen a)

-- What an update leaves: an entry of a 64-bit object is replaced, the members of one of a 32-bit
-- object are assigned in order until one does not fit.
abbrev pub stored :
    {A : Type 0}
    → (A → A → Stored A)
    → LibelfData A
    → ℕ
    → A
    → ElfClass
    → Option A
    → Result (Unit {0}) × Option (LibelfData A)
stored store d n new ec none = (err argument, some d)
stored store d n new ec (some old) = (
  stored_result (store_class ec store new old).1,
  some (record d { d_buf = set d.d_buf n (store_class ec store new old).0 }),
)

-- The size of an entry, as an index below 2 ^ 31 needs it.
abbrev pub IsEntrySize : ℕ → Type 0
IsEntrySize m = (0 < m) × (m ≤ 32)

pub small_product : (m n : ℕ) → m ≤ 32 → n < 2 ^ 31 → m * n < 2 ^ 64
small_product m n h k = let wide : m * n ≤ 32 * n = grind arith in omega arith

module _ {A : Type 0} (t : ElfType) (widen : A → A) (store : A → A → Stored A) where
  check_entry-IsTable :
      (d : LibelfData A) (n : ℕ) (ec : ElfClass)
      → IsElfClass ec
      → IsTable t ec d
      → 0 < msize t ec ev_current
      → msize t ec ev_current * n < 2 ^ 64
      → check_entry t d (pos n) true ≡ (if leb (length d.d_buf) n then err argument else ok ec)
  unfolding check_entry
  check_entry-IsTable d n ec (inl c) h positive fits =
      ground
        (arith, scaled_test (msize t ec ev_current) (length d.d_buf) n positive, mod-eq_of_lt fits)
  check_entry-IsTable d n ec (inr c) h positive fits =
      ground
        (arith, scaled_test (msize t ec ev_current) (length d.d_buf) n positive, mod-eq_of_lt fits)

  module _ (d : LibelfData A) (n : ℕ) (ec : ElfClass) (cls : IsElfClass ec) (table : IsTable t ec d)
      (size : IsEntrySize (msize t ec ev_current)) (int : n < 2 ^ 31) where
    pub get_entry-IsTable :
        get_entry t widen (some d) (pos n) true ≡ found widen ec (get_elem? d.d_buf n)
    unfolding get_entry
    get_entry-IsTable = elim (Option-cases (get_elem? d.d_buf n)) [
      | inl missing ↦ ground (
        arith,
        missing,
        get_elem?-ge d.d_buf n missing,
        check_entry-IsTable d n ec cls table size.0
            (small_product (msize t ec ev_current) n size.1 int),
      )
      | inr (a, there) ↦ ground (
        arith,
        there,
        get_elem?-lt d.d_buf n there,
        check_entry-IsTable d n ec cls table size.0
            (small_product (msize t ec ev_current) n size.1 int),
      )
    ]

    pub update_entry-IsTable :
        (new : A)
        → update_entry t store (some d) (pos n) (some new)
          ≡ stored store d n new ec (get_elem? d.d_buf n)
    unfolding update_entry
    update_entry-IsTable new = elim (Option-cases (get_elem? d.d_buf n)) [
      | inl missing ↦ ground (
        arith,
        missing,
        get_elem?-ge d.d_buf n missing,
        check_entry-IsTable d n ec cls table size.0
            (small_product (msize t ec ev_current) n size.1 int),
      )
      | inr (a, there) ↦ ground (
        arith,
        there,
        get_elem?-lt d.d_buf n there,
        check_entry-IsTable d n ec cls table size.0
            (small_product (msize t ec ev_current) n size.1 int),
      )
    ]

-- Writing an entry keeps a data descriptor consistent.
pub IsTable-set :
    {A : Type 0} {t : ElfType} {ec : ElfClass} (d : LibelfData A) (n : ℕ) (a : A)
    → IsTable t ec d
    → IsTable t ec (record d { d_buf = set d.d_buf n a })
IsTable-set d n a h = record {
  scn = h.scn;
  elf = h.elf;
  at_scn = h.at_scn;
  at_elf = h.at_elf;
  class = h.class;
  version = h.version;
  holds = h.holds;
  sized = rw (length-set d.d_buf n a) h.sized;
}

pub IsTable-Frame :
    {A : Type 0} (t : ElfType) (widen : A → A) (store : A → A → Stored A) (n : ℕ)
    (d d' : LibelfData A) (ec : ElfClass)
    → Frame t widen store n d d'
    → IsTable t ec d
    → IsTable t ec d'
IsTable-Frame t widen store n d d' ec frame h = record {
  scn = h.scn;
  elf = h.elf;
  at_scn = frame.scn ∙ h.at_scn;
  at_elf = h.at_elf;
  class = h.class;
  version = h.version;
  holds = h.holds;
  sized = cc (frame.size, frame.count, h.sized);
}
