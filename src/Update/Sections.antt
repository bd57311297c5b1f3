-- ===== src/Update/Sections.antt =====
-- libelf/elf_update.c: `_libelf_resync_sections`, which lays out the sections one after the other.
pub mod Layout
use elftoolchain_libelf.Base.{ℕ, ◌+◌, Bool, ◌||◌, List, [], ◌∷◌, ltb, ◌==◌, if◌then◌else◌}
use elftoolchain_libelf.Base.Outcome.{Result, ok, err, fault, Malloc}
use elftoolchain_libelf.Format.SectionType.{sht_null, sht_nobits}
use elftoolchain_libelf.State.{Elf, Scn}
use elftoolchain_libelf.Header.Ehdr.{Library}
use elftoolchain_libelf.Section.Data.{Host}
use elftoolchain_libelf.Update.Extent.{ElfExtent, Extent, add64, insert_extent}
use elftoolchain_libelf.Update.Section.{compute_section_extents}

-- What the library does not compute: the routines of `lib`, and the answers of the allocator, for
-- each call that asks it. The sections are told apart by their index.
pub record Env : Type 0 where
  pub lib : Library
  pub ehdr_mem : Malloc
  pub scn0_mem : Malloc
  pub phdr_mem : Malloc
  pub scn_mem : ℕ → Malloc
  pub header_extent : ElfExtent → Malloc
  pub scn_extent : ℕ → Malloc
  pub host : ℕ → Host
  pub phnum_mem : Malloc
  pub shnum_mem : Malloc

-- An address for the descriptor of a section, that is not NULL.
abbrev pub scn_desc : Scn → ℕ
scn_desc s = s.s_ndx + 1

-- sh_type == SHT_NOBITS || sh_type == SHT_NULL
abbrev pub is_skipped : Scn → Bool
is_skipped s = (s.s_shdr.sh_type == sht_nobits) || (s.s_shdr.sh_type == sht_null)

-- What `_libelf_resync_sections` does with a section that `_libelf_compute_section_extents` has
-- laid out: the new value of `rc`, and the list of extents.
insert_section : Env → (rc : ℕ) → List Extent → Scn → Result (Unit {0}) → Result (ℕ × List Extent)
unfolding insert_extent
insert_section a rc es s (err c) = err c
insert_section a rc es s fault = fault
insert_section a rc es s (ok u) =
    let end = add64 s.s_offset s.s_size in
    if s.s_size == 0
    then ok (rc, es)
    else elim (insert_extent es ElfExtent.section s.s_offset s.s_size (scn_desc s)
        (a.scn_extent s.s_ndx)) [
          | ok es' ↦ ok ((if ltb rc end then end else rc), es')
          | err c ↦ err c
          | fault ↦ fault
        ]

-- The body of the loop. The last result is the section.
resync_section : Env → Elf → (rc : ℕ) → List Extent → Scn → Result (ℕ × List Extent) × Scn
unfolding insert_section compute_section_extents
resync_section a e rc es s =
    let (r, s') = compute_section_extents e s rc (a.host s.s_ndx) in
    if is_skipped s then (ok (rc, es), s) else (insert_section a rc es s' r, s')

-- `_libelf_resync_sections`: the value returned with the list of extents, and the sections. The
-- sections behind one that fails stay as they were.
unfoldable pub resync_sections :
    Env → Elf → (rc : ℕ) → List Extent → List Scn → Result (ℕ × List Extent) × List Scn
unfolding resync_section
resync_sections a e rc es [] = (ok (rc, es), [])
resync_sections a e rc es (s ∷ ss) =
    let (r, s') = resync_section a e rc es s in
    elim r [
      | ok (rc', es') ↦ let (r', ss') = resync_sections a e rc' es' ss in (r', s' ∷ ss')
      | err c ↦ (err c, s' ∷ ss)
      | fault ↦ (fault, s' ∷ ss)
    ]
