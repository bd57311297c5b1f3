-- ===== src/Gelf/Entry.antt =====
-- libelf/gelf_sym.c, gelf_rel.c, gelf_rela.c, gelf_dyn.c, gelf_cap.c, gelf_move.c, gelf_syminfo.c: the
-- parts that their functions share, the checks and the access to one entry.
pub mod Laws
pub mod Table
use elftoolchain_libelf.Base.{
  ℕ, ◌*◌, ◌%◌, ◌^◌, Bool, true, false, not, Option, none, some, List, leb, ◌==◌, if◌then◌else◌, set,
  get_elem?,
}
use elftoolchain_libelf.Base.Int.{ℤ, pos, negsuc}
use elftoolchain_libelf.Base.Outcome.{ErrorCode, argument, Result, ok, err, fault, ◌>>=◌}
use elftoolchain_libelf.Format.Types.{ElfClass, class_none, class_32, class_64, ElfType, is_type}
use elftoolchain_libelf.Format.SectionType.{xlate_shtype}
use elftoolchain_libelf.Format.Size.{msize}

-- What these functions read of an ELF descriptor, a section descriptor and a data descriptor. A
-- pointer that may be NULL is an Option; `address` tells descriptors apart. `d_buf` holds the entries; those of a 32-bit object have
-- the same members, with smaller ranges.
pub record Descriptor : Type 0 where
  pub address : ℕ
  pub e_class : ElfClass
  pub e_version : ℕ

pub record Section : Type 0 where
  pub s_elf : Option Descriptor
  pub sh_type : ℕ

pub record LibelfData (A : Type 0) : Type 0 where
  pub d_scn : Option Section
  pub d_type : Option ElfType
  pub d_size : ℕ
  pub d_buf : List A

-- The checks from the class on: the class if the index is in range. The class and the size of an
-- entry are asserted.
check_index : ElfType → (sh_type d_size n : ℕ) → Descriptor → Result ElfClass
check_index t sh_type d_size n e = elim e.e_class [
  | class_none ↦ fault
  | ec ↦
      if not (is_type (xlate_shtype sh_type) t)
      then err argument
      else if msize t ec e.e_version == 0
      then fault
      else if leb d_size (msize t ec e.e_version * n % 2 ^ 64)
      then err argument
      else ok ec
]

check_section : ElfType → (d_size n : ℕ) → Section → Result ElfClass
unfolding check_index
check_section t d_size n scn = elim scn.s_elf [
  | none ↦ err argument
  | some e ↦ check_index t scn.sh_type d_size n e
]

-- All checks on a data descriptor `d`, an index and the caller's structure, which is not NULL if
-- `given`.
check_entry : {A : Type 0} → ElfType → LibelfData A → ℤ → (given : Bool) → Result ElfClass
unfolding check_section
check_entry t d (negsuc n) given = err argument
check_entry t d (pos n) false = err argument
check_entry t d (pos n) true = elim d.d_scn [
  | none ↦ err argument
  | some scn ↦ check_section t d.d_size n scn
]

abbrev pub index_of : ℤ → ℕ
index_of (pos n) = n
index_of (negsuc n) = 0

abbrev pub widen_class : {A : Type 0} → ElfClass → (A → A) → A → A
widen_class class_32 widen a = widen a
widen_class ec widen a = a

-- An access past the end of the buffer is a fault.
read_entry : {A : Type 0} → (A → A) → LibelfData A → ℕ → ElfClass → Result A
read_entry widen d n ec = elim (get_elem? d.d_buf n) [
  | none ↦ fault
  | some a ↦ ok (widen_class ec widen a)
]

-- A `gelf_get*` function for entries of type `t`; `widen` makes the class independent form.
unfoldable pub get_entry :
    {A : Type 0} → ElfType → (A → A) → Option (LibelfData A) → ℤ → (given : Bool) → Result A
unfolding check_entry read_entry
get_entry t widen none ndx given = err argument
get_entry t widen (some d) ndx given = do
  ec ← check_entry t d ndx given
  read_entry widen d (index_of ndx) ec

-- What is left in an entry of a 32-bit object after its members were assigned, and the error that
-- stopped the assignments.
abbrev pub Stored : Type 0 → Type 0
Stored A = A × Option ErrorCode

abbrev pub stored_result : Option ErrorCode → Result (Unit {0})
stored_result none = ok tt
stored_result (some e) = err e

abbrev pub store_class : {A : Type 0} → ElfClass → (A → A → Stored A) → A → A → Stored A
store_class class_32 store new old = store new old
store_class ec store new old = (new, none)

write_entry :
    {A : Type 0}
    → (A → A → Stored A)
    → LibelfData A
    → ℕ
    → A
    → ElfClass
    → Result (Unit {0}) × LibelfData A
write_entry store d n new ec = elim (get_elem? d.d_buf n) [
  | none ↦ (fault, d)
  | some old ↦ (
    stored_result (store_class ec store new old).1,
    record d { d_buf = set d.d_buf n (store_class ec store new old).0 },
  )
]

checked_write :
    {A : Type 0}
    → (A → A → Stored A)
    → LibelfData A
    → ℕ
    → A
    → Result ElfClass
    → Result (Unit {0}) × LibelfData A
unfolding write_entry
checked_write store d n new (ok ec) = write_entry store d n new ec
checked_write store d n new (err e) = (err e, d)
checked_write store d n new fault = (fault, d)

abbrev keep_pointer : {A : Type 0} → Result (Unit {0}) × A → Result (Unit {0}) × Option A
keep_pointer (r, d) = (r, some d)

-- A `gelf_update_*` function for entries of type `t`: its return value and the data descriptor after
-- it. `store` assigns the members of the 32-bit form.
unfoldable pub update_entry :
    {A : Type 0}
    → ElfType
    → (A → A → Stored A)
    → Option (LibelfData A)
    → ℤ
    → Option A
    → Result (Unit {0}) × Option (LibelfData A)
unfolding check_entry checked_write
update_entry t store none ndx new = (err argument, none)
update_entry t store (some d) ndx none = (err argument, some d)
update_entry t store (some d) ndx (some new) =
    keep_pointer (checked_write store d (index_of ndx) new (check_entry t d ndx true))
