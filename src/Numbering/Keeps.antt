-- ===== src/Numbering/Keeps.antt =====
-- libelf/libelf_extended.c: what the functions that set a number leave of the sections.
use elftoolchain_libelf.Base.{
  Bool, true, false, some, ltb, ◌+◌, ℕ, ◌%◌, ◌^◌, ◌≡◌, refl, ◌∙◌, inl, inr, List, [], ◌∷◌, ◌++◌,
  leb, ◌==◌, Bool-cases, arith,
}
use elftoolchain_libelf.Base.Outcome.{Result, ok, err, fault, Malloc, granted, denied}
use elftoolchain_libelf.Format.Types.{ElfClass, t_shdr}
use elftoolchain_libelf.Format.Size.{fsize}
use elftoolchain_libelf.State.{Elf, Scn, Shdr, Ehdr}
use elftoolchain_libelf.Flag.{elf_flagscn}
use elftoolchain_libelf.Numbering.{
  raw_size, new_scn, shn_loreserve, pn_xnum, dirty_scn, set_scn0, set_new, extend, size_of_class,
  with_header, setshnum, setphnum, allocate_scn, read_scn0, take_extended, load_extended,
  load_numbers,
}

-- A section is of the same type, and at the same place in the file.
pub record SamePlace (s s' : Scn) : Type 0 where
  pub same_type : s'.s_shdr.sh_type ≡ s.s_shdr.sh_type
  pub same_ndx : s'.s_ndx ≡ s.s_ndx
  pub same_offset : s'.s_offset ≡ s.s_offset
  pub same_size : s'.s_size ≡ s.s_size

-- The numbers of headers and of sections in the descriptor stay.
pub record SameNumbers (e e' : Elf) : Type 0 where
  pub same_nphdr : e'.e_nphdr ≡ e.e_nphdr
  pub same_nscn : e'.e_nscn ≡ e.e_nscn

-- The list stays, or its first section is changed, or an object without sections gets one of the
-- type SHT_NULL.
pub data Keeps (ss : List Scn) (ss' : List Scn) : Type 0 where
  same : ss' ≡ ss → Keeps ss ss'
  first :
      (s s' : Scn) (rest : List Scn)
      → ss ≡ s ∷ rest
      → ss' ≡ s' ∷ rest
      → SamePlace s s'
      → Keeps ss ss'
  added : (s' : Scn) → ss ≡ [] → ss' ≡ s' ∷ [] → s'.s_shdr.sh_type ≡ 0 → Keeps ss ss'

dirty_scn-SamePlace : (s : Scn) → SamePlace s (dirty_scn s)
unfolding dirty_scn elf_flagscn
dirty_scn-SamePlace s = ground arith

module _ (assign : Shdr → Shdr) (keeps_type : (sh : Shdr) → (assign sh).sh_type ≡ sh.sh_type) where
  changed-SamePlace : (s : Scn) → SamePlace s (dirty_scn (record s { s_shdr = assign s.s_shdr }))
  changed-SamePlace s =
      let p = dirty_scn-SamePlace (record s { s_shdr = assign s.s_shdr }) in
      record {
        same_type = p.same_type ∙ keeps_type s.s_shdr;
        same_ndx = p.same_ndx;
        same_offset = p.same_offset;
        same_size = p.same_size;
      }

  by_list-Keeps :
      (e : Elf) (mem : Malloc) (ss : List Scn)
      → e.e_scn ≡ ss
      → Keeps e.e_scn (extend e assign mem ss).1.e_scn
  unfolding extend set_scn0 set_new allocate_scn
  by_list-Keeps e mem (s ∷ rest) h = elim (Bool-cases (s.s_ndx == 0)) [
    | inl zeroth ↦ rw zeroth (
        first s (dirty_scn (record s { s_shdr = assign s.s_shdr })) rest h refl
          (changed-SamePlace s))
    | inr other ↦ rw other (same refl)
  ]
  by_list-Keeps e (denied n) [] h = same refl
  by_list-Keeps e granted [] h =
      let s = new_scn 0 in
      rw h (
        added (dirty_scn (record s { s_shdr = assign s.s_shdr })) refl refl
          ((changed-SamePlace s).same_type))

extend-SameNumbers :
    (e : Elf) (assign : Shdr → Shdr) (mem : Malloc) (ss : List Scn)
    → SameNumbers e (extend e assign mem ss).1
unfolding extend set_scn0 set_new allocate_scn
extend-SameNumbers e assign mem (s ∷ rest) = ground arith
extend-SameNumbers e assign (denied n) [] = ground arith
extend-SameNumbers e assign granted [] = by_list e.e_scn
  where
    by_list :
        (ss : List Scn)
        → SameNumbers e
            (set_scn0
              (record e { e_scn = ss ++ (new_scn 0 ∷ []) })
              assign
              (ss ++ (new_scn 0 ∷ []))).1
    by_list [] = ground arith
    by_list (s ∷ rest) = ground arith

with_header-elf :
    (eh : Ehdr) (assign : Ehdr → Ehdr) (r : Result (Unit {0}) × Elf)
    → (with_header eh assign r).1 ≡ r.1
unfolding with_header
with_header-elf eh assign (ok u, e) = refl
with_header-elf eh assign (err c, e) = refl
with_header-elf eh assign (fault, e) = refl

module _ (e : Elf) (eh : Ehdr) (ec : ElfClass) (n : ℕ) (mem : Malloc) where
  pub setshnum-Keeps : Keeps e.e_scn (setshnum e eh ec n mem).1.e_scn
  unfolding setshnum
  setshnum-Keeps = elim (Bool-cases (leb shn_loreserve n)) [
    | inl large ↦ rw large (
        rw with_header-elf (
          by_list-Keeps (λ sh. record sh { sh_size = size_of_class ec n }) (λ sh. refl) e mem
            e.e_scn refl))
    | inr small ↦ rw small (same refl)
  ]

  pub setphnum-Keeps : Keeps e.e_scn (setphnum e eh ec n mem).1.e_scn
  unfolding setphnum
  setphnum-Keeps = elim (Bool-cases (leb pn_xnum n)) [
    | inl large ↦ rw large (
        rw with_header-elf (
          by_list-Keeps (λ sh. record sh { sh_info = n % 2 ^ 32 }) (λ sh. refl) e mem e.e_scn refl))
    | inr small ↦ rw small (same refl)
  ]

  pub setshnum-SameNumbers : SameNumbers e (setshnum e eh ec n mem).1
  unfolding setshnum
  setshnum-SameNumbers =
      let assign = λ (sh : Shdr). record sh { sh_size = size_of_class ec n } in
      let k = extend-SameNumbers e assign mem e.e_scn in
      elim (Bool-cases (leb shn_loreserve n)) [
        | inl large ↦ rw large (rw with_header-elf k)
        | inr small ↦ rw small (record { same_nphdr = refl; same_nscn = refl })
      ]

  pub setphnum-SameNumbers : SameNumbers e (setphnum e eh ec n mem).1
  unfolding setphnum
  setphnum-SameNumbers =
      let assign = λ (sh : Shdr). record sh { sh_info = n % 2 ^ 32 } in
      let k = extend-SameNumbers e assign mem e.e_scn in
      elim (Bool-cases (leb pn_xnum n)) [
        | inl large ↦ rw large (rw with_header-elf k)
        | inr small ↦ rw small (record { same_nphdr = refl; same_nscn = refl })
      ]

-- The kind, the class and the version of a descriptor stay.
pub record SameKind (e e' : Elf) : Type 0 where
  pub same_kind : e'.e_kind ≡ e.e_kind
  pub same_class : e'.e_class ≡ e.e_class
  pub same_version : e'.e_version ≡ e.e_version

read_scn0-SameKind :
    (past : Bool) (e : Elf) (sh0 : Shdr) (phnum strndx : ℕ) (mem : Malloc)
    → SameKind e (read_scn0 past sh0 phnum strndx (allocate_scn e 0 mem)).1
unfolding read_scn0 take_extended allocate_scn
read_scn0-SameKind past e sh0 phnum strndx (denied n) = ground arith
read_scn0-SameKind true e sh0 phnum strndx granted = ground arith
read_scn0-SameKind false e sh0 phnum strndx granted = ground arith

load_extended-SameKind :
    (e : Elf) (ec : ElfClass) (shoff phnum strndx : ℕ) (sh0 : Shdr) (mem : Malloc)
    → SameKind e (load_extended e ec shoff phnum strndx sh0 mem).1
unfolding load_extended
load_extended-SameKind e ec shoff phnum strndx sh0 mem =
    let fsz = (fsize (some t_shdr) ec e.e_version 1).0 in
    let k = read_scn0-SameKind (ltb (raw_size e) (shoff + fsz)) e sh0 phnum strndx mem in
    ground (arith, k)

pub load_numbers-SameKind :
    (e : Elf) (ec : ElfClass) (eh : Ehdr) (sh0 : Shdr) (mem : Malloc)
    → SameKind e (load_numbers e ec eh sh0 mem).1
unfolding load_numbers
load_numbers-SameKind e ec eh sh0 mem =
    let k = load_extended-SameKind e ec eh.e_shoff eh.e_phnum eh.e_shstrndx sh0 mem in
    ground (arith, k)
