-- ===== src/Section/Table/Loading.antt =====
-- libelf/elf_scn.c: `_libelf_load_section_headers` makes a table with one section for each header in the
-- file.
use elftoolchain_libelf.Base.{ℕ, ◌+◌, ◌*◌, ◌≤◌, ◌<◌, ◌≡◌, some, length, drop, get_elem?}
use elftoolchain_libelf.Format.Types.{t_shdr}
use elftoolchain_libelf.Format.Size.{fsize}
use elftoolchain_libelf.State.{Elf, Shdr, Ehdr}
use elftoolchain_libelf.Header.Ehdr.{Library, raw_bytes, swaps}
use elftoolchain_libelf.Section.Table.{read_scn}
use elftoolchain_libelf.Section.Table.Index.{IsTable}

-- The size of a section header in the file.
abbrev pub shdr_size : Elf → ℕ
shdr_size e = (fsize (some t_shdr) e.e_class e.e_version 1).0

-- The section header `i` of the file, translated.
abbrev pub file_shdr : Library → Elf → Ehdr → ℕ → Shdr
file_shdr lib e eh i =
    lib.to_shdr e.e_class (swaps lib e) (drop (eh.e_shoff + i * shdr_size e) (raw_bytes e))

-- The sections after a success: all that were there, and one for each header behind them.
record IsLoaded (lib : Library) (e : Elf) (eh : Ehdr) (e' : Elf) : Type 0 where
  table : IsTable e'
  each :
      (i : ℕ)
      → length e.e_scn ≤ i
      → i < e.e_nscn
      → get_elem? e'.e_scn i ≡ some (read_scn i (file_shdr lib e eh i))
