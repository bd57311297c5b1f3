-- ===== src/Lib.antt =====
-- Verification of libelf, the ELF access library of elftoolchain_libelf.
--
-- The library keeps a descriptor (struct _Elf of elftoolchain_libelf/libelf/_libelf.h) for each ELF
-- object or archive, with a list of sections, each with lists of data. Callers read and write the
-- entries of a section's data through the class independent GElf functions, mark what they change
-- with the flag functions, and have elf_update lay the object out and write it.
--
-- The parts, and the files that model them. Paths are those of elftoolchain_libelf/libelf, if no
-- other directory is given. A definition has the name of its C function, without `_libelf_`, or a
-- name that says which part of a function it is.
--
--   Base        Boolean tests, lists measured by native numbers, signed integers, the error codes
--               and results, and the bits of a word.
--   Format      libelf.h, common/elfdefinitions.h, libelf_data.c, and the size tables that
--               libelf_fsize.m4 and libelf_msize.m4 generate: classes, element types, sizes, and the
--               type of the data that a section holds; libelf_align.c: the alignment of the elements.
--   State       _libelf.h, common/elfdefinitions.h: the descriptors and the headers.
--   Gelf        gelf_sym.c, gelf_rel.c, gelf_rela.c, gelf_dyn.c, gelf_cap.c, gelf_move.c,
--               gelf_syminfo.c and gelf_symshndx.c. The functions of the first seven have one text
--               but for the names of the members: Gelf/Entry models that text, with the type of the
--               entry and the assignments of its members as arguments, and the other files fill them.
--   Flag        elf_flag.c: the flag functions.
--   Header      libelf_ehdr.c and libelf_phdr.c: the executable header and the program header table,
--               loaded when they are asked for; Header/Number: elf_phnum.c, elf_shnum.c and
--               elf_shstrndx.c; Header/Class and Header/Gelf: gelf_ehdr.c, gelf_phdr.c,
--               gelf_shdr.c and libelf_shdr.c, for one class and for either.
--   Section     elf_scn.c: the section table; elf_data.c: the data of a section; elf_strptr.c: the
--               strings of a string table.
--   Update      elf_update.c: the layout of an object. Update/Section lays out the data of one section,
--               Update/Sections all sections, and Update/Resync the whole object with its header
--               tables; Update/Extent is the list of the extents that the parts of a file cover, and
--               Update/Sync the state that the steps share, as a monad.
--   Numbering   libelf_extended.c, and the parts of libelf_ehdr.c and libelf_allocate.c that load the
--               numbers of sections and program headers: what does not fit the header is in section 0.
--   Hash        elf_hash.c: the hash of a symbol name.
--   Ar          libelf_ar_util.c, elf_rand.c and elf_next.c: the numbers and the names in an archive
--               header, the opening of an archive and the walk over its members; libelf_ar.c: the
--               header descriptors and both kinds of symbol tables.
--
-- Correspondence. A function that may fail returns a Result: `ok`, `err` with the code that
-- LIBELF_SET_ERROR sets, or `fault` for what C leaves undefined, an access outside an object or a
-- false assertion; that a function does not fault is part of the theorems that give its result. A
-- function that changes its argument returns the changed one next to its result. A pointer that may
-- be NULL is an Option. A C integer is a natural number, with its reduction modulo a power of two
-- written out where an operation may leave its range; signed members are signed integers. `long` and
-- `size_t` have 64 bits and `int` 32. What `malloc` answers is an argument, and
-- so is the host's reading of a `long` from its bytes.
--
-- A 32-bit entry and a 64-bit entry of a section share one record, since they have the same members.
-- The buffer of a data descriptor is the list of its entries in Gelf, where an index past its end is
-- a fault, so that the size checks of the code are seen to prevent it; elsewhere it is an address.
--
-- The contents of an archive are the list of the bytes of its file, and a pointer into it is an offset.
--
-- Bounds. The loops of the library are recursions on the lists that they walk or on their counters
-- and need no fuel. The loop of a client over the sections, in Section/Table/Walk, takes as fuel the
-- number of its calls, of which one for each section is enough.
--
-- A pointer to a section is its place in the section list, and a pointer to a data descriptor the
-- index of the section with the place in its list. The translation routines are fields of a record
-- (Header/Ehdr.Library, Section/Data.Host), as are the answers of the allocator to the calls of one
-- function (Section/Table.Answers, Update/Sections.Env).
--
-- Not modelled: the writing of a file (elf_update and _libelf_write_elf in elf_update.c), the
-- opening of archive members (libelf_ar.c), the checksum, and the translation between the file and the
-- memory forms, whose routines libelf_convert.m4 generates. Files, memory mapping and allocation
-- (libelf_open.c, libelf_allocate.c, elf_begin.c) are input and output. The directory elfutils_libelf
-- is another library, and example holds sample programs.
pub mod Base
pub mod Format
pub mod State
pub mod Gelf
pub mod Flag
pub mod Update
pub mod Hash
pub mod Ar
pub mod Numbering
pub mod Header
pub mod Section
