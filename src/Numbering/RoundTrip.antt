-- ===== src/Numbering/RoundTrip.antt =====
-- libelf/libelf_extended.c, libelf/libelf_ehdr.c: numbers that are set and loaded again.
use elftoolchain_libelf.Base.{
  ℕ, ◌+◌, ◌%◌, ◌^◌, ◌<◌, ◌≤◌, ◌≡◌, ◌≢◌, refl, ap, ◌∙◌, ◌⊎◌, inl, inr, List, [], ◌∷◌, leb, ◌==◌,
  if◌then◌else◌, Bool-cases, arith,
}
use elftoolchain_libelf.Base.Outcome.{ok, Malloc, granted}
use elftoolchain_libelf.Format.Types.{ElfClass, class_32, class_64, ev_current}
use elftoolchain_libelf.Format.Size.{fsize, file_size}
use elftoolchain_libelf.State.{Elf, Scn, Shdr, Ehdr}
use elftoolchain_libelf.Flag.{elf_flagscn}
use elftoolchain_libelf.Numbering.{
  raw_size, set_numbers, new_scn, shn_loreserve, shn_xindex, pn_xnum, dirty_scn, extend,
  size_of_class, setshnum, setphnum, setshstrndx, load_extended, load_numbers,
}

-- A descriptor has section 0, with the header `sh`.
pub record IsScn0 (e : Elf) (sh : Shdr) : Type 0 where
  pub scn : Scn
  pub rest : List Scn
  pub first : e.e_scn ≡ scn ∷ rest
  pub index : scn.s_ndx ≡ 0
  pub shdr : scn.s_shdr ≡ sh

dirty_scn-keeps : (s : Scn) → ((dirty_scn s).s_shdr ≡ s.s_shdr) × ((dirty_scn s).s_ndx ≡ s.s_ndx)
unfolding dirty_scn elf_flagscn
dirty_scn-keeps s = ground arith

extend-IsScn0 :
    (e : Elf) (sh : Shdr) (assign : Shdr → Shdr) (mem : Malloc)
    → IsScn0 e sh
    → (e' : Elf) × (extend e assign mem e.e_scn ≡ (ok tt, e')) × IsScn0 e' (assign sh)
unfolding extend
extend-IsScn0 e sh assign mem h =
    let scn' : Scn = record h.scn { s_shdr = assign h.scn.s_shdr } in
    let (keeps_shdr, keeps_ndx) = dirty_scn-keeps scn' in
    (
      record e { e_scn = dirty_scn scn' ∷ h.rest },
      rw h.first (ground (arith, h.index)),
      record {
        scn = dirty_scn scn';
        rest = h.rest;
        first = refl;
        index = keeps_ndx ∙ h.index;
        shdr = keeps_shdr ∙ ap assign h.shdr;
      },
    )

-- What the three functions make of the file's header and of the header of section 0.
abbrev pub shnum_header : ℕ → Ehdr → Ehdr
shnum_header n eh = record eh { e_shnum = if leb shn_loreserve n then 0 else n % 2 ^ 16 }

abbrev pub shnum_shdr : ElfClass → ℕ → Shdr → Shdr
shnum_shdr ec n sh = record sh {
  sh_size = if leb shn_loreserve n then size_of_class ec n else sh.sh_size;
}

abbrev pub phnum_header : ℕ → Ehdr → Ehdr
phnum_header n eh = record eh { e_phnum = if leb pn_xnum n then pn_xnum else n % 2 ^ 16 }

abbrev pub phnum_shdr : ℕ → Shdr → Shdr
phnum_shdr n sh = record sh { sh_info = if leb pn_xnum n then n % 2 ^ 32 else sh.sh_info }

abbrev pub strndx_header : ℕ → Ehdr → Ehdr
strndx_header n eh = record eh {
  e_shstrndx = if leb shn_loreserve n then shn_xindex else n % 2 ^ 16;
}

abbrev pub strndx_shdr : ℕ → Shdr → Shdr
strndx_shdr n sh = record sh { sh_link = if leb shn_loreserve n then n % 2 ^ 32 else sh.sh_link }

module _ (e : Elf) (eh : Ehdr) (sh : Shdr) (ec : ElfClass) (n : ℕ) (mem : Malloc)
    (h : IsScn0 e sh) where
  setshnum-IsScn0 :
      (e' : Elf) × (setshnum e eh ec n mem ≡ (ok tt, e', shnum_header n eh))
      × IsScn0 e' (shnum_shdr ec n sh)
  unfolding setshnum
  setshnum-IsScn0 = elim (Bool-cases (leb shn_loreserve n)) [
    | inl large ↦
        let (e', set, scn0) =
          extend-IsScn0 e sh (λ x. record x { sh_size = size_of_class ec n }) mem h in
        (e', ground (arith, large, set), rw large scn0)
    | inr small ↦ (e, ground (arith, small), rw small h)
  ]

  setphnum-IsScn0 :
      (e' : Elf) × (setphnum e eh ec n mem ≡ (ok tt, e', phnum_header n eh))
      × IsScn0 e' (phnum_shdr n sh)
  unfolding setphnum
  setphnum-IsScn0 = elim (Bool-cases (leb pn_xnum n)) [
    | inl large ↦
        let (e', set, scn0) = extend-IsScn0 e sh (λ x. record x { sh_info = n % 2 ^ 32 }) mem h in
        (e', ground (arith, large, set), rw large scn0)
    | inr small ↦ (e, ground (arith, small), rw small h)
  ]

  setshstrndx-IsScn0 :
      (e' : Elf) × (setshstrndx e eh ec n mem ≡ (ok tt, e', strndx_header n eh))
      × IsScn0 e' (strndx_shdr n sh)
  unfolding setshstrndx
  setshstrndx-IsScn0 = elim (Bool-cases (leb shn_loreserve n)) [
    | inl large ↦
        let (e', set, scn0) = extend-IsScn0 e sh (λ x. record x { sh_link = n % 2 ^ 32 }) mem h in
        (e', ground (arith, large, set), rw large scn0)
    | inr small ↦ (e, ground (arith, small), rw small h)
  ]

-- A descriptor of a file that is large enough for a section header at `shoff`, before its sections are
-- loaded.
pub record IsUnloaded (f : Elf) (ec : ElfClass) (shoff : ℕ) : Type 0 where
  pub class : (ec ≡ class_32) ⊎ (ec ≡ class_64)
  pub none_yet : f.e_scn ≡ []
  pub version : f.e_version ≡ ev_current
  pub placed : shoff ≢ 0
  pub inside : shoff + 64 ≤ raw_size f
  pub bounded : raw_size f < 2 ^ 64

load_extended-sh0 :
    (f : Elf) (ec : ElfClass) (shoff phnum strndx : ℕ) (sh : Shdr)
    → IsUnloaded f ec shoff
    → sh.sh_type ≡ 0
    → (f' : Elf) × (load_extended f ec shoff phnum strndx sh granted ≡ (ok tt, f'))
      × (f'.e_nscn ≡ sh.sh_size)
      × (f'.e_nphdr ≡ (if phnum == pn_xnum then sh.sh_info else phnum))
      × (f'.e_strndx ≡ (if strndx == shn_xindex then sh.sh_link else strndx))
unfolding load_extended fsize file_size
load_extended-sh0 f ec shoff phnum strndx sh h null =
    let loaded : Elf =
      set_numbers (record f { e_scn = record (new_scn 0) { s_shdr = sh } ∷ [] }) sh.sh_size
        (if phnum == pn_xnum then sh.sh_info else phnum)
        (if strndx == shn_xindex then sh.sh_link else strndx) in
    (
      loaded,
      elim h.class [
        | inl c ↦ rw (c, h.none_yet, h.version) (ground (arith, null, h.inside, h.bounded))
        | inr c ↦ rw (c, h.none_yet, h.version) (ground (arith, null, h.inside, h.bounded))
      ],
      refl,
      refl,
      refl,
    )

-- The header and the header of section 0 that the three functions leave, for an object without
-- extended numbers before.
abbrev pub numbers_header : (shnum phnum strndx : ℕ) → Ehdr → Ehdr
numbers_header shnum phnum strndx eh =
    strndx_header strndx (phnum_header phnum (shnum_header shnum eh))

abbrev pub numbers_shdr : ElfClass → (shnum phnum strndx : ℕ) → Shdr → Shdr
numbers_shdr ec shnum phnum strndx sh =
    strndx_shdr strndx (phnum_shdr phnum (shnum_shdr ec shnum sh))

load_numbers-extended :
    (f : Elf) (ec : ElfClass) (shnum phnum strndx : ℕ) (eh : Ehdr) (sh : Shdr)
    → IsUnloaded f ec eh.e_shoff
    → sh.sh_type ≡ 0
    → shnum < 2 ^ 32
    → phnum < 2 ^ 32
    → strndx < 2 ^ 32
    → shn_loreserve ≤ shnum
    → (f' : Elf) × (load_numbers f ec
          (numbers_header shnum phnum strndx eh)
          (numbers_shdr ec shnum phnum strndx sh)
          granted
        ≡ (ok tt, f'))
      × (f'.e_nscn ≡ shnum)
      × (f'.e_nphdr ≡ phnum)
      × (f'.e_strndx ≡ strndx)
unfolding load_numbers size_of_class
load_numbers-extended f ec shnum phnum strndx eh sh h null n_small p_small s_small large =
    let eh' = numbers_header shnum phnum strndx eh in
    let sh' = numbers_shdr ec shnum phnum strndx sh in
    let (f', loaded, nscn, nphdr, index) =
      load_extended-sh0 f ec eh.e_shoff eh'.e_phnum eh'.e_shstrndx sh' h null in
    (
      f',
      ground (arith, loaded, large, h.placed),
      elim h.class [
        | inl c ↦ nscn ∙ ground (arith, c, large, n_small)
        | inr c ↦ nscn ∙ ground (arith, c, large, n_small)
      ],
      nphdr ∙ ground (arith, p_small),
      index ∙ ground (arith, s_small),
    )

load_numbers-plain :
    (f : Elf) (ec : ElfClass) (shnum phnum strndx : ℕ) (eh : Ehdr) (sh : Shdr)
    → IsUnloaded f ec eh.e_shoff
    → 0 < shnum
    → shnum < shn_loreserve
    → phnum < pn_xnum
    → strndx < shn_loreserve
    → (f' : Elf) × (load_numbers f ec
          (numbers_header shnum phnum strndx eh)
          (numbers_shdr ec shnum phnum strndx sh)
          granted
        ≡ (ok tt, f'))
      × (f'.e_nscn ≡ shnum)
      × (f'.e_nphdr ≡ phnum)
      × (f'.e_strndx ≡ strndx)
unfolding load_numbers
load_numbers-plain f ec shnum phnum strndx eh sh h some_scn n_small p_small s_small = (
  set_numbers f shnum phnum strndx,
  ground (arith, h.placed, some_scn, n_small, p_small, s_small),
  refl,
  refl,
  refl,
)

-- The numbers that can be loaded again: those of which none needs section 0, or of which at least
-- the number of sections does.
abbrev pub IsLoadable : (shnum phnum strndx : ℕ) → Type 0
IsLoadable shnum phnum strndx =
    ((shn_loreserve ≤ shnum) × (shnum < 2 ^ 32) × (phnum < 2 ^ 32) × (strndx < 2 ^ 32))
    ⊎ ((0 < shnum) × (shnum < shn_loreserve) × (phnum < pn_xnum) × (strndx < shn_loreserve))

-- A call of each function that sets a number, one after the other, that succeeds.
pub record AreNumbers (e : Elf) (eh : Ehdr) (ec : ElfClass) (shnum phnum strndx : ℕ) (mem : Malloc)
    (e' : Elf) (eh' : Ehdr) : Type 0 where
  pub e1 : Elf
  pub e2 : Elf
  pub eh1 : Ehdr
  pub eh2 : Ehdr
  pub shnum_set : setshnum e eh ec shnum mem ≡ (ok tt, e1, eh1)
  pub phnum_set : setphnum e1 eh1 ec phnum mem ≡ (ok tt, e2, eh2)
  pub strndx_set : setshstrndx e2 eh2 ec strndx mem ≡ (ok tt, e', eh')

set_all :
    (e : Elf) (eh : Ehdr) (sh : Shdr) (ec : ElfClass) (shnum phnum strndx : ℕ) (mem : Malloc)
    → IsScn0 e sh
    → (e' : Elf) × AreNumbers e eh ec shnum phnum strndx mem e'
        (numbers_header shnum phnum strndx eh)
      × IsScn0 e' (numbers_shdr ec shnum phnum strndx sh)
set_all e eh sh ec shnum phnum strndx mem h =
    let (e1, set1, h1) = setshnum-IsScn0 e eh sh ec shnum mem h in
    let eh1 = shnum_header shnum eh in
    let sh1 = shnum_shdr ec shnum sh in
    let (e2, set2, h2) = setphnum-IsScn0 e1 eh1 sh1 ec phnum mem h1 in
    let (e3, set3, h3) =
      setshstrndx-IsScn0 e2 (phnum_header phnum eh1) (phnum_shdr phnum sh1) ec strndx mem h2 in
    (
      e3,
      record {
        e1 = e1;
        e2 = e2;
        eh1 = eh1;
        eh2 = phnum_header phnum eh1;
        shnum_set = set1;
        phnum_set = set2;
        strndx_set = set3;
      },
      h3,
    )

-- What a load of the header `eh` and of the header `sh` of section 0 finds.
pub record IsLoaded (f : Elf) (ec : ElfClass) (eh : Ehdr) (sh : Shdr) (nscn nphdr strndx : ℕ)
    : Type 0 where
  pub f' : Elf
  pub loaded : load_numbers f ec eh sh granted ≡ (ok tt, f')
  pub nscn_found : f'.e_nscn ≡ nscn
  pub nphdr_found : f'.e_nphdr ≡ nphdr
  pub strndx_found : f'.e_strndx ≡ strndx

-- Loadable numbers that `setshnum`, `setphnum` and `setshstrndx` put into a header and into section 0,
-- whose type is SHT_NULL, are what `load_numbers` finds in a file with these headers.
pub load_numbers-set :
    (e f : Elf) (eh : Ehdr) (sh : Shdr) (ec : ElfClass) (shnum phnum strndx : ℕ) (mem : Malloc)
    → IsScn0 e sh
    → sh.sh_type ≡ 0
    → IsUnloaded f ec eh.e_shoff
    → IsLoadable shnum phnum strndx
    → (e' : Elf) × (eh' : Ehdr) × (sh' : Shdr) × AreNumbers e eh ec shnum phnum strndx mem e' eh'
      × IsScn0 e' sh'
      × IsLoaded f ec eh' sh' shnum phnum strndx
load_numbers-set e f eh sh ec shnum phnum strndx mem h null unloaded loadable =
    let (e', set, scn0) = set_all e eh sh ec shnum phnum strndx mem h in
    (
      e',
      numbers_header shnum phnum strndx eh,
      numbers_shdr ec shnum phnum strndx sh,
      set,
      scn0,
      elim loadable [
        | inl (large, n, p, s) ↦
            let (f', l, a, b, c) =
              load_numbers-extended f ec shnum phnum strndx eh sh unloaded null n p s large in
            record { f' = f'; loaded = l; nscn_found = a; nphdr_found = b; strndx_found = c }
        | inr (some_scn, n, p, s) ↦
            let (f', l, a, b, c) =
              load_numbers-plain f ec shnum phnum strndx eh sh unloaded some_scn n p s in
            record { f' = f'; loaded = l; nscn_found = a; nphdr_found = b; strndx_found = c }
      ],
    )

-- Where only the number of program headers needs section 0, the number of sections is lost: what
-- `load_numbers` finds for it is the size of section 0, which none of the calls has set.
pub load_numbers-loses :
    (e f : Elf) (eh : Ehdr) (sh : Shdr) (ec : ElfClass) (shnum phnum strndx : ℕ) (mem : Malloc)
    → IsScn0 e sh
    → sh.sh_type ≡ 0
    → IsUnloaded f ec eh.e_shoff
    → shnum < shn_loreserve
    → pn_xnum ≤ phnum
    → phnum < 2 ^ 32
    → strndx < shn_loreserve
    → (e' : Elf) × (eh' : Ehdr) × (sh' : Shdr) × AreNumbers e eh ec shnum phnum strndx mem e' eh'
      × IsScn0 e' sh'
      × IsLoaded f ec eh' sh' sh.sh_size phnum strndx
unfolding load_numbers
load_numbers-loses e f eh sh ec shnum phnum strndx mem h null unloaded n p p_small s =
    let (e', set, scn0) = set_all e eh sh ec shnum phnum strndx mem h in
    let eh' = numbers_header shnum phnum strndx eh in
    let sh' = numbers_shdr ec shnum phnum strndx sh in
    let (f', l, a, b, c) =
      load_extended-sh0 f ec eh.e_shoff eh'.e_phnum eh'.e_shstrndx sh' unloaded null in
    (
      e',
      eh',
      sh',
      set,
      scn0,
      record {
        f' = f';
        loaded = ground (arith, l, n, p, unloaded.placed);
        nscn_found = a ∙ ground (arith, n);
        nphdr_found = b ∙ ground (arith, p, p_small);
        strndx_found = c ∙ ground (arith, s);
      },
    )
