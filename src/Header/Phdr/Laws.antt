-- ===== src/Header/Phdr/Laws.antt =====
-- libelf/libelf_phdr.c: looking for the program header table does not change the numbers of headers.
use elftoolchain_libelf.Base.{ℕ, ◌≡◌, refl, true, false, Option, none, some, List, arith}
use elftoolchain_libelf.Base.Outcome.{Result, ok, err, fault, Malloc, granted, denied}
use elftoolchain_libelf.Format.Types.{ElfClass, class_none, class_32, class_64}
use elftoolchain_libelf.State.{has_class, Elf, Ehdr, Phdr}
use elftoolchain_libelf.Numbering.Keeps.{SameNumbers}
use elftoolchain_libelf.Header.Ehdr.{Library, ehdr}
use elftoolchain_libelf.Header.Ehdr.Laws.{SameNumbers-trans, ehdr-SameNumbers}
use elftoolchain_libelf.Header.Phdr.{getphdr, find_phdr, located, load_phdrs}

stays : (e : Elf) → SameNumbers e e
stays e = record { same_nphdr = refl; same_nscn = refl }

load_phdrs-SameNumbers :
    (fsz : ℕ) (lib : Library) (e : Elf) (ec : ElfClass) (phoff : ℕ) (mem : Malloc)
    → SameNumbers e (load_phdrs fsz lib e ec phoff mem).1
unfolding load_phdrs
load_phdrs-SameNumbers fsz lib e ec phoff (denied n) = ground arith
load_phdrs-SameNumbers fsz lib e ec phoff granted = ground arith

located-SameNumbers :
    (lib : Library) (ec : ElfClass) (mem : Malloc) (r : Result Ehdr) (e : Elf)
    → SameNumbers e (located lib ec mem (r, e)).1
unfolding located
located-SameNumbers lib ec mem (ok eh) e = load_phdrs-SameNumbers _ lib e ec eh.e_phoff mem
located-SameNumbers lib ec mem (err c) e = stays e
located-SameNumbers lib ec mem fault e = stays e

module _ (lib : Library) (e : Elf) (eh_mem scn0 mem : Malloc) (eh : Ehdr)
    (present : e.e_ehdr ≡ some eh) where
  find_phdr-SameNumbers :
      (ec : ElfClass) (o : Option (List Phdr))
      → SameNumbers e (find_phdr lib e ec eh_mem scn0 mem o).1
  unfolding find_phdr
  find_phdr-SameNumbers ec (some phdrs) = stays e
  find_phdr-SameNumbers ec none =
      let (r, e') = ehdr lib e ec false eh_mem scn0 in
      SameNumbers-trans e e' (located lib ec mem (r, e')).1
        (ehdr-SameNumbers lib e ec false eh_mem scn0 eh present)
        (located-SameNumbers lib ec mem r e')

  pub getphdr-SameNumbers : (ec : ElfClass) → SameNumbers e (getphdr lib e ec eh_mem scn0 mem).1
  unfolding getphdr
  getphdr-SameNumbers class_none = stays e
  getphdr-SameNumbers class_32 = find_phdr-SameNumbers class_32 e.e_phdr
  getphdr-SameNumbers class_64 = find_phdr-SameNumbers class_64 e.e_phdr

-- A table that is there is the answer, and the descriptor stays.
pub getphdr-present :
    (lib : Library) (e : Elf) (ec : ElfClass) (eh_mem scn0 mem : Malloc) (phdrs : List Phdr)
    → has_class ec ≡ true
    → e.e_phdr ≡ some phdrs
    → getphdr lib e ec eh_mem scn0 mem ≡ (ok phdrs, e)
unfolding getphdr find_phdr
getphdr-present lib e ec eh_mem scn0 mem phdrs known there = rw (known, there) refl
