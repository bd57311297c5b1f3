-- ===== src/Section/Table/Numbers.antt =====
-- libelf/elf_scn.c: loading the section headers does not change the numbers of headers.
use elftoolchain_libelf.Base.{ℕ, Option, none, some, List, [], ◌∷◌, arith}
use elftoolchain_libelf.Base.Outcome.{ok, Malloc}
use elftoolchain_libelf.State.{Elf, Scn, Ehdr}
use elftoolchain_libelf.Header.Ehdr.{Library}
use elftoolchain_libelf.Numbering.Keeps.{SameNumbers}
use elftoolchain_libelf.Section.Table.{want_headers, load_section_headers, load_checked, loaded}

loaded-SameNumbers :
    (e : Elf) (scns : List Scn) (o : Option ℕ) → SameNumbers e (loaded e (scns, o)).1
unfolding loaded
loaded-SameNumbers e scns none = ground arith
loaded-SameNumbers e scns (some errno) = ground arith

load_checked-SameNumbers :
    (lib : Library) (e : Elf) (fsz shoff : ℕ) (mem : ℕ → Malloc) (ss : List Scn)
    → SameNumbers e (load_checked lib e fsz shoff mem ss).1
unfolding load_checked
load_checked-SameNumbers lib e fsz shoff mem [] = loaded-SameNumbers e _ _
load_checked-SameNumbers lib e fsz shoff mem (s ∷ []) = loaded-SameNumbers e _ _
load_checked-SameNumbers lib e fsz shoff mem (s ∷ s' ∷ rest) = ground arith

load_section_headers-SameNumbers :
    (lib : Library) (e : Elf) (eh : Ehdr) (mem : ℕ → Malloc)
    → SameNumbers e (load_section_headers lib e eh mem).1
unfolding load_section_headers
load_section_headers-SameNumbers lib e eh mem = ground (arith, load_checked-SameNumbers lib e)

pub want_headers-SameNumbers :
    (lib : Library) (mem : ℕ → Malloc) (eh : Ehdr) (e : Elf)
    → SameNumbers e (want_headers lib mem (ok eh, e)).1
unfolding want_headers
want_headers-SameNumbers lib mem eh e =
    ground (arith, load_section_headers-SameNumbers lib e eh mem)
