-- ===== src/Header/Number/Laws.antt =====
-- libelf/elf_phnum.c, elf_shnum.c, elf_shstrndx.c: the numbers of an object whose header is there.
use elftoolchain_libelf.Base.{ℕ, ◌≡◌, ap, ◌∙◌, false}
use elftoolchain_libelf.Base.Outcome.{ok, Malloc}
use elftoolchain_libelf.State.{Elf, Ehdr}
use elftoolchain_libelf.Header.Ehdr.{Library, ehdr}
use elftoolchain_libelf.Header.Ehdr.Laws.{IsOpen, ehdr-open}
use elftoolchain_libelf.Header.Number.{number_of, found_number}

pub number_of-open :
    (member : Elf → ℕ) (lib : Library) (e : Elf) (eh : Ehdr)
    → IsOpen e eh
    → (mem scn0 : Malloc) → number_of member lib e mem scn0 ≡ (ok (member e), e)
unfolding number_of found_number
number_of-open member lib e eh o mem scn0 =
    let steps : number_of member lib e mem scn0
        ≡ found_number member (ehdr lib e e.e_class false mem scn0) =
      rw (o.elf, o.known_class) in
    steps ∙ ap (found_number member) (ehdr-open lib e eh o mem scn0)
