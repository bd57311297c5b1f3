-- ===== src/Update/Resync.antt =====
-- libelf/elf_update.c: `_libelf_resync_elf`, which lays an object out and updates its header.
pub mod Tables
pub mod Numbers
pub mod Parts
pub mod Stored
pub mod Layout
use elftoolchain_libelf.Base.{
  ℕ, ◌+◌, ◌%◌, ◌^◌, Bool, true, false, not, ◌&&◌, ◌||◌, Option, none, some, List, ltb, ◌==◌,
  if◌then◌else◌,
}
use elftoolchain_libelf.Base.Outcome.{Result, ok, err, fault, ErrorCode, layout, unset}
use elftoolchain_libelf.Format.Types.{
  ElfClass, class_none, class_32, t_ehdr, t_phdr, t_shdr, ev_current,
}
use elftoolchain_libelf.Format.Size.{fsize}
use elftoolchain_libelf.Format.Align.{falign}
use elftoolchain_libelf.State.{is_write, has_class, Elf, Scn, Ehdr, c_set}
use elftoolchain_libelf.Flag.{elf_flagehdr, f_dirty}
use elftoolchain_libelf.Numbering.{setphnum, setshnum}
use elftoolchain_libelf.Header.Ehdr.{ehdr, class_code, flag_ehdr}
use elftoolchain_libelf.Header.Phdr.{getphdr}
use elftoolchain_libelf.Section.Table.{want_headers}
use elftoolchain_libelf.Update.Extent.{ElfExtent, Extent}
use elftoolchain_libelf.Update.Section.{by_application}
use elftoolchain_libelf.Update.Sections.{Env, resync_sections}
use elftoolchain_libelf.Update.Sync.{
  add_off, is_negative, lt_off, roundup_off, Sync, M, continue, ◌>>=◌, ◌>>◌, pure, get, on_elf,
  modify, insert,
}

-- The members of the file's header that are set for its class and version.
initialize_ehdr : ElfClass → (phnum : ℕ) → Ehdr → Ehdr
unfolding fsize
initialize_ehdr ec phnum eh = record eh {
  ei_class = class_code ec;
  ei_version = ev_current % 256;
  e_ehsize = (fsize (some t_ehdr) ec ev_current 1).0 % 2 ^ 16;
  e_phentsize = if phnum == 0 then 0 else (fsize (some t_phdr) ec ev_current 1).0 % 2 ^ 16;
  e_shentsize = (fsize (some t_shdr) ec ev_current 1).0 % 2 ^ 16;
}

-- The checks of the header. EV_NONE stands for EV_CURRENT.
check_header : Elf → Ehdr → Result (Unit {0})
check_header e eh =
    let eh_version = if eh.e_version == 0 then ev_current else eh.e_version in
    if is_negative eh.e_phoff || is_negative eh.e_shoff
    then err ErrorCode.header
    else if not (eh_version == e.e_version)
    then err ErrorCode.version
    else if not (eh.ei_class == class_code e.e_class)
    then err ErrorCode.class
    else if not (is_write e.e_cmd) && not (eh.ei_data == e.e_byteorder)
    then err ErrorCode.header
    else ok tt

-- The byte order of the header, and the header, are stored in the descriptor.
set_header : ElfClass → Ehdr → Elf → Elf
unfolding initialize_ehdr flag_ehdr
set_header ec eh e =
    flag_ehdr
      (record e { e_byteorder = eh.ei_data; e_ehdr = some (initialize_ehdr ec e.e_nphdr eh) })

-- The header of the object is found, checked and completed, and gets its extent: the header, and
-- what is laid out with it.
pub sync_ehdr : Env → ElfClass → M (Ehdr × ℕ)
unfolding ehdr check_header set_header insert fsize
sync_ehdr a ec = do
  eh ← on_elf (λ e. ehdr a.lib e ec false a.ehdr_mem a.scn0_mem)
  e ← get
  pure (check_header e eh)
  modify (set_header ec eh)
  insert ElfExtent.ehdr 0 (fsize (some t_ehdr) ec ev_current 1).0 1 (a.header_extent ElfExtent.ehdr)
  pure (ok (initialize_ehdr ec e.e_nphdr eh, (fsize (some t_ehdr) ec ev_current 1).0))

-- The offset of the program header table, behind `rc`.
phdr_offset : Elf → ElfClass → (rc phoff : ℕ) → Result ℕ
unfolding falign roundup_off
phdr_offset e ec rc phoff =
    let align = falign (some t_phdr) ec in
    if not (by_application e)
    then roundup_off rc align
    else if lt_off phoff rc || not (phoff % align == 0)
    then err layout
    else ok phoff

-- The call of `_libelf_getphdr`: a pointer, which is NULL if it fails.
phdr_desc : Env → ElfClass → Elf → Result ℕ × Elf
unfolding getphdr
phdr_desc a ec e =
    let (r, e') = getphdr a.lib e ec a.ehdr_mem a.scn0_mem a.phdr_mem in
    (elim r [ ok phdrs ↦ ok 1 | err c ↦ ok 0 | fault ↦ fault ], e')

-- The program header table, behind `rc`: its offset, and what is laid out with it.
pub sync_phdr : Env → ElfClass → (phnum rc phoff : ℕ) → M (ℕ × ℕ)
unfolding phdr_offset phdr_desc insert fsize add_off
sync_phdr a ec phnum rc phoff = if phnum == 0 then pure (ok (0, rc)) else do
  e ← get
  off ← pure (phdr_offset e ec rc phoff)
  let fsz = (fsize (some t_phdr) ec ev_current phnum).0
  rc' ← pure (add_off off fsz)
  desc ← on_elf (phdr_desc a ec)
  insert ElfExtent.phdr off fsz desc (a.header_extent ElfExtent.phdr)
  pure (ok (off, rc'))

-- The state after `_libelf_resync_sections`. A result that is negative as an off_t is a failure.
walked : Sync → Result (ℕ × List Extent) × List Scn → Result ℕ × Sync
walked s (ok (rc, es), scns) = (
  if is_negative rc then err unset else ok rc,
  record { elf = record s.elf { e_scn = scns }; extents = es },
)
walked s (err c, scns) = (err c, record s { elf = record s.elf { e_scn = scns } })
walked s (fault, scns) = (fault, record s { elf = record s.elf { e_scn = scns } })

sync_walk : Env → (rc : ℕ) → M ℕ
unfolding resync_sections walked
sync_walk a rc s = walked s (resync_sections a s.elf rc s.extents s.elf.e_scn)

-- The sections, whose headers are loaded if need be.
pub sync_sections : Env → Ehdr → (rc : ℕ) → M ℕ
unfolding want_headers sync_walk
sync_sections a eh rc = do on_elf (λ e. want_headers a.lib a.scn_mem (ok eh, e)); sync_walk a rc

-- The offset of the section header table; `rc` is what is laid out before it.
shdr_offset : Elf → ElfClass → (rc shoff : ℕ) → Result ℕ
unfolding falign roundup_off
shdr_offset e ec rc shoff =
    let align = falign (some t_shdr) ec in
    if not (by_application e)
    then roundup_off rc align
    else if not (shoff % align == 0)
    then err layout
    else ok shoff

-- The section header table: its offset, and what is laid out with it.
pub sync_shdr : Env → ElfClass → (shnum rc shoff : ℕ) → M (ℕ × ℕ)
unfolding shdr_offset insert fsize add_off
sync_shdr a ec shnum rc shoff = if shnum == 0 then pure (ok (0, rc)) else do
  e ← get
  off ← pure (shdr_offset e ec rc shoff)
  let fsz = (fsize (some t_shdr) ec ev_current shnum).0
  end ← pure (add_off off fsz)
  insert ElfExtent.shdr off fsz 0 (a.header_extent ElfExtent.shdr)
  pure (ok (off, (if lt_off rc end then end else rc)))

-- A call of `_libelf_setphnum` or `_libelf_setshnum`, whose result is not used.
ignored : Result (Unit {0}) × Elf × Ehdr → Result Ehdr × Elf
ignored (ok u, e, eh) = (ok eh, e)
ignored (err c, e, eh) = (ok eh, e)
ignored (fault, e, eh) = (fault, e)

-- The offsets are stored if the library does the layout, in 32 bits or 64.
store_offsets : ElfClass → (phoff shoff : ℕ) → Ehdr → Ehdr
store_offsets class_32 phoff shoff eh = record eh {
  e_phoff = phoff % 2 ^ 32;
  e_shoff = shoff % 2 ^ 32;
}
store_offsets ec phoff shoff eh = record eh { e_phoff = phoff; e_shoff = shoff }

-- The members of the header that depend on the layout.
pub finish_ehdr : Env → ElfClass → Ehdr → (phnum shnum phoff shoff : ℕ) → M (Unit {0})
unfolding ignored store_offsets setphnum setshnum
finish_ehdr a ec eh phnum shnum phoff shoff = do
  eh1 ← on_elf (λ e. ignored (setphnum e eh ec phnum a.phnum_mem))
  eh2 ← on_elf (λ e. ignored (setshnum e eh1 ec shnum a.shnum_mem))
  modify (λ e. record e {
    e_ehdr = some (if by_application e then eh2 else store_offsets ec phoff shoff eh2);
  })

-- The steps for a class that is known.
sync_all : Env → ElfClass → M ℕ
unfolding sync_ehdr sync_phdr sync_sections sync_shdr finish_ehdr
sync_all a ec = do
  (eh, rc) ← sync_ehdr a ec
  e ← get
  (phoff, rc1) ← sync_phdr a ec e.e_nphdr rc eh.e_phoff
  rc2 ← sync_sections a eh rc1
  (shoff, rc3) ← sync_shdr a ec e.e_nscn rc2 eh.e_shoff
  finish_ehdr a ec eh e.e_nphdr e.e_nscn phoff shoff
  pure (ok rc3)

-- `_libelf_resync_elf`: the size of the file, and the state.
unfoldable pub resync_elf : Env → M ℕ
unfolding sync_all
resync_elf a s = if has_class s.elf.e_class then sync_all a s.elf.e_class s else (fault, s)
