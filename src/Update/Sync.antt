-- ===== src/Update/Sync.antt =====
-- libelf/elf_update.c: file offsets, and the state that the steps of `_libelf_resync_elf` share.
pub mod Laws
use elftoolchain_libelf.Base.{
  ℕ, ◌+◌, ◌-◌, ◌*◌, ◌/◌, ◌%◌, ◌^◌, Bool, ◌&&◌, List, leb, ltb, ◌==◌, if◌then◌else◌,
}
use elftoolchain_libelf.Base.Outcome.{Result, ok, err, fault, Malloc}
use elftoolchain_libelf.State.{Elf}
use elftoolchain_libelf.Update.Extent.{ElfExtent, Extent, insert_extent}

-- off_t, kept as its pattern of 64 bits. A sum `a + b` where `a` is not negative; an overflow is
-- undefined.
unfoldable pub add_off : (a b : ℕ) → Result ℕ
add_off a b = if ltb b (2 ^ 63) && leb (2 ^ 63) (a + b) then fault else ok ((a + b) % 2 ^ 64)

abbrev pub is_negative : ℕ → Bool
is_negative a = leb (2 ^ 63) a

-- a < b, on signed values
abbrev pub lt_off : (a b : ℕ) → Bool
lt_off a b = ltb ((a + 2 ^ 63) % 2 ^ 64) ((b + 2 ^ 63) % 2 ^ 64)

-- roundup(x, y) on off_t values that are not negative. A division by zero is a fault.
unfoldable pub roundup_off : (x y : ℕ) → Result ℕ
unfolding add_off
roundup_off x y =
    if y == 0
    then fault
    else elim (add_off x (y - 1)) [ ok z ↦ ok (z / y * y) | err c ↦ err c | fault ↦ fault ]

-- The descriptor, and the list of extents.
pub record Sync : Type 0 where
  pub elf : Elf
  pub extents : List Extent

-- A routine that may fail, on this state.
abbrev pub M : Type 0 → Type 0
M A = Sync → Result A × Sync

-- The rest of a routine, after a step with the given outcome.
abbrev pub continue : {A B : Type 0} → (A → M B) → Result A × Sync → Result B × Sync
continue f (ok a, s) = f a s
continue f (err c, s) = (err c, s)
continue f (fault, s) = (fault, s)

infixl 5 ◌>>=◌ ◌>>◌
abbrev pub ◌>>=◌ : {A B : Type 0} → M A → (A → M B) → M B
◌>>=◌ m f s = continue f (m s)

abbrev pub ◌>>◌ : {B : Type 0} → M (Unit {0}) → M B → M B
m >> k = m >>= λ _. k

abbrev pub pure : {A : Type 0} → Result A → M A
pure r s = (r, s)

abbrev pub get : M Elf
get s = (ok s.elf, s)

-- A function on the descriptor.
abbrev pub on_elf : {A : Type 0} → (Elf → Result A × Elf) → M A
on_elf f s = let (r, e) = f s.elf in (r, record s { elf = e })

abbrev pub modify : (Elf → Elf) → M (Unit {0})
modify f s = (ok tt, record s { elf = f s.elf })

-- The state after an insertion.
inserted : Sync → Result (List Extent) → Result (Unit {0}) × Sync
inserted s (ok es) = (ok tt, record s { extents = es })
inserted s (err c) = (err c, s)
inserted s fault = (fault, s)

-- `_libelf_insert_extent` on the list of extents.
unfoldable pub insert : ElfExtent → (start size desc : ℕ) → Malloc → M (Unit {0})
unfolding insert_extent inserted
insert type start size desc mem s = inserted s (insert_extent s.extents type start size desc mem)
