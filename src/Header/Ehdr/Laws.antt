-- ===== src/Header/Ehdr/Laws.antt =====
-- libelf/libelf_ehdr.c: a header that is there already is found, and nothing changes.
use elftoolchain_libelf.Base.{Bool, ◌≡◌, refl, true, false, Option, some, arith}
use elftoolchain_libelf.Base.Outcome.{ok, Malloc}
use elftoolchain_libelf.Format.Types.{ElfClass, ev_current}
use elftoolchain_libelf.State.{is_elf, has_class, Elf, Ehdr}
use elftoolchain_libelf.Numbering.Keeps.{SameNumbers}
use elftoolchain_libelf.Header.Ehdr.{Library, ehdr, find_ehdr}

pub SameNumbers-trans : (e e1 e2 : Elf) → SameNumbers e e1 → SameNumbers e1 e2 → SameNumbers e e2
SameNumbers-trans e e1 e2 p q = ground (arith, p.same_nphdr, p.same_nscn, q.same_nphdr, q.same_nscn)

module _ (lib : Library) (e : Elf) (ec : ElfClass) (allocate : Bool) (mem scn0 : Malloc) where
  find_ehdr-some :
      (o : Option Ehdr) (eh : Ehdr)
      → o ≡ some eh
      → find_ehdr lib e ec allocate mem scn0 o ≡ (ok eh, e)
  unfolding find_ehdr
  find_ehdr-some o eh h = rw h

pub ehdr-SameNumbers :
    (lib : Library) (e : Elf) (ec : ElfClass) (allocate : Bool) (mem scn0 : Malloc) (eh : Ehdr)
    → e.e_ehdr ≡ some eh
    → SameNumbers e (ehdr lib e ec allocate mem scn0).1
unfolding ehdr
ehdr-SameNumbers lib e ec allocate mem scn0 eh present =
    ground (
      arith,
      find_ehdr-some lib (record e { e_class = ec }) ec allocate mem scn0 e.e_ehdr eh present,
    )

-- A header that is there is the answer, and the descriptor stays.
pub ehdr-present :
    (lib : Library) (e : Elf) (ec : ElfClass) (allocate : Bool) (mem scn0 : Malloc) (eh : Ehdr)
    → is_elf e.e_kind ≡ true
    → e.e_class ≡ ec
    → has_class ec ≡ true
    → e.e_version ≡ ev_current
    → e.e_ehdr ≡ some eh
    → ehdr lib e ec allocate mem scn0 ≡ (ok eh, e)
unfolding ehdr
ehdr-present lib e ec allocate mem scn0 eh kind cls known current present =
    ground (
      arith,
      find_ehdr-some lib (record e { e_class = ec }) ec allocate mem scn0 e.e_ehdr eh present,
    )

-- An object whose executable header is there.
pub record IsOpen (e : Elf) (eh : Ehdr) : Type 0 where
  pub elf : is_elf e.e_kind ≡ true
  pub known_class : has_class e.e_class ≡ true
  pub current : e.e_version ≡ ev_current
  pub present : e.e_ehdr ≡ some eh

pub ehdr-open :
    (lib : Library) (e : Elf) (eh : Ehdr)
    → IsOpen e eh
    → (mem scn0 : Malloc) → ehdr lib e e.e_class false mem scn0 ≡ (ok eh, e)
ehdr-open lib e eh o mem scn0 =
    ehdr-present lib e e.e_class false mem scn0 eh o.elf refl o.known_class o.current o.present
