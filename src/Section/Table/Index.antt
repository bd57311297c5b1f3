-- ===== src/Section/Table/Index.antt =====
-- libelf/elf_scn.c: the indices of the sections are their places in the table.
use elftoolchain_libelf.Base.{
  ℕ, zero, suc, ◌+◌, ◌%◌, ◌^◌, ◌<◌, ◌≡◌, refl, sym, ap, ◌∙◌, inl, inr, true, false, not, ◌&&◌, some,
  List, [], ◌∷◌, ◌++◌, length, ◌==◌, if◌then◌else◌, Bool-cases, bit_and, length-append, arith,
}
use elftoolchain_libelf.Base.Outcome.{ok, Malloc, granted, denied}
use elftoolchain_libelf.State.{is_elf, has_class, is_write, Elf, Scn, Ehdr}
use elftoolchain_libelf.Flag.{elf_flagscn}
use elftoolchain_libelf.Numbering.{new_scn}
use elftoolchain_libelf.Header.Ehdr.{Library, ehdr}
use elftoolchain_libelf.Header.Ehdr.Laws.{ehdr-present}
use elftoolchain_libelf.Section.Data.{flag_scn}
use elftoolchain_libelf.Section.Table.{
  f_shdrs_loaded, Answers, want_headers, find_scn, search_scn, elf_getscn, add_scn, first_scn,
  grow_scn, append_scn, elf_newscn,
}

-- The sections have the indices from `i` on.
abbrev pub Numbered : ℕ → List Scn → Type 0
Numbered i [] = Unit
Numbered i (s ∷ ss) = (s.s_ndx ≡ i) × Numbered (i + 1) ss

-- The table of an object: each section has its place for its index, and the descriptor counts them.
pub record IsTable (e : Elf) : Type 0 where
  pub numbered : Numbered 0 e.e_scn
  pub counted : length e.e_scn ≡ e.e_nscn

-- An object whose executable header is there, and whose section headers need not be loaded.
pub record IsReady (e : Elf) (eh : Ehdr) : Type 0 where
  pub elf : is_elf e.e_kind ≡ true
  pub known_class : has_class e.e_class ≡ true
  pub current : e.e_version ≡ 1
  pub present : e.e_ehdr ≡ some eh
  pub loaded : (not (is_write e.e_cmd) && (bit_and e.e_flags f_shdrs_loaded == 0)) ≡ false

Numbered-append :
    (i j : ℕ) (ss : List Scn) (s : Scn)
    → i + length ss ≡ j
    → Numbered i ss
    → s.s_ndx ≡ j
    → Numbered i (ss ++ (s ∷ []))
Numbered-append i j [] s e h last = (omega arith, tt)
Numbered-append i j (x ∷ ss) s e h last =
    (h.0, Numbered-append (i + 1) j ss s (omega arith) h.1 last)

find_scn-Numbered :
    (ss : List Scn) (i k n : ℕ)
    → i + k ≡ n
    → k < length ss
    → Numbered i ss
    → find_scn ss n i ≡ some n
unfolding find_scn
find_scn-Numbered [] i k n e lt h = elim lt [ ]
find_scn-Numbered (s ∷ ss) i zero n e lt h = ground (arith, h.0)
find_scn-Numbered (s ∷ ss) i (suc k) n e lt h =
    ground (arith, h.0, find_scn-Numbered ss (i + 1) k n (omega arith) (omega arith) h.1)

module _ (lib : Library) (e : Elf) (eh : Ehdr) (ready : IsReady e eh) (mem scn0 : Malloc) where
  want_headers-ready :
      (answers : ℕ → Malloc)
      → want_headers lib answers (ehdr lib e e.e_class false mem scn0) ≡ (ok tt, e)
  unfolding want_headers
  want_headers-ready answers =
      rw
        (ehdr-present lib e e.e_class false mem scn0 eh ready.elf refl ready.known_class
          ready.current ready.present)
        (ground (arith, ready.loaded))

flag_scn-s_ndx : (s : Scn) → (flag_scn s).s_ndx ≡ s.s_ndx
unfolding flag_scn elf_flagscn
flag_scn-s_ndx s = ground arith

-- The section that `elf_newscn` adds: the last one, with its place for its index.
record Added (e : Elf) (p : ℕ) (e' : Elf) : Type 0 where
  place : p ≡ e.e_nscn
  table : IsTable e'
  longer : length e'.e_scn ≡ e.e_nscn + 1
  rest : e' ≡ record e { e_scn = e'.e_scn; e_nscn = e'.e_nscn }

add_scn-Added :
    (e : Elf) (mem : Malloc) (p : ℕ) (e' : Elf)
    → IsTable e
    → e.e_nscn + 1 < 2 ^ 64
    → add_scn e mem ≡ (ok p, e')
    → Added e p e'
unfolding add_scn
add_scn-Added e (denied n) p e' t small h = ground (arith, h)
add_scn-Added e granted p e' t small h =
    let s = flag_scn (new_scn e.e_nscn) in
    let same : record e { e_scn = e.e_scn ++ (s ∷ []); e_nscn = (e.e_nscn + 1) % 2 ^ 64 } ≡ e' =
      ap (λ r. r.1) h in
    let at : length e.e_scn ≡ p = ground (arith, h) in
    let len = length-append e.e_scn (s ∷ []) in
    rw (← same) (record {
      place = omega (arith, t.counted);
      table = record {
        numbered =
            Numbered-append 0 e.e_nscn e.e_scn s (omega (arith, t.counted)) t.numbered
              (flag_scn-s_ndx (new_scn e.e_nscn));
        counted = omega (arith, len, t.counted);
      };
      longer = omega (arith, len, t.counted);
      rest = refl;
    })

-- An object that has no section gets two.
abbrev pub first_index : Elf → ℕ
first_index e = if e.e_nscn == 0 then 1 else e.e_nscn

record Grown (e : Elf) (p : ℕ) (e' : Elf) : Type 0 where
  place : p ≡ first_index e
  table : IsTable e'
  longer : length e'.e_scn ≡ p + 1
  rest : e' ≡ record e { e_scn = e'.e_scn; e_nscn = e'.e_nscn }

first_scn-Grown :
    (e : Elf) (mem0 mem1 : Malloc) (p : ℕ) (e' : Elf)
    → e.e_nscn == 0 ≡ true
    → first_scn e mem0 mem1 ≡ (ok p, e')
    → Grown e p e'
unfolding first_scn
first_scn-Grown e (denied n) mem1 p e' empty h = ground (arith, h)
first_scn-Grown e granted mem1 p e' empty h =
    let one : Elf = record e { e_scn = new_scn 0 ∷ []; e_nscn = 1 } in
    let a =
      add_scn-Added one mem1 p e' (record { numbered = (refl, tt); counted = refl }) (omega arith)
        h in
    record {
      place = rw empty (a.place);
      table = a.table;
      longer = omega (arith, a.longer, a.place);
      rest = a.rest;
    }

grow_scn-Grown :
    (e : Elf) (mem : ℕ → Malloc) (ss : List Scn) (p : ℕ) (e' : Elf)
    → e.e_scn ≡ ss
    → IsTable e
    → e.e_nscn + 1 < 2 ^ 64
    → grow_scn e mem ss ≡ (ok p, e')
    → Grown e p e'
unfolding grow_scn
grow_scn-Grown e mem (s ∷ ss) p e' same t small h = elim (Bool-cases (e.e_nscn == 0)) [
  | inl none_there ↦ ground (arith, h, none_there)
  | inr there ↦
      let a = add_scn-Added e (mem e.e_nscn) p e' t small (rw there at h) in
      record {
        place = rw there (a.place);
        table = a.table;
        longer = omega (arith, a.longer, a.place);
        rest = a.rest;
      }
]
grow_scn-Grown e mem [] p e' same t small h = elim (Bool-cases (e.e_nscn == 0)) [
  | inl none_there ↦ first_scn-Grown e (mem 0) (mem 1) p e' none_there (rw none_there at h)
  | inr there ↦ ground (arith, h, there)
]

Grown-IsReady :
    (e : Elf) (eh : Ehdr) (p : ℕ) (e' : Elf) → Grown e p e' → IsReady e eh → IsReady e' eh
Grown-IsReady e eh p e' g r = record {
  elf = ap (λ x. is_elf x.e_kind) g.rest ∙ r.elf;
  known_class = ap (λ x. has_class x.e_class) g.rest ∙ r.known_class;
  current = ap (λ x. x.e_version) g.rest ∙ r.current;
  present = ap (λ x. x.e_ehdr) g.rest ∙ r.present;
  loaded =
      ap (λ x. not (is_write x.e_cmd) && (bit_and x.e_flags f_shdrs_loaded == 0)) g.rest ∙ r.loaded;
}

elf_newscn-Grown :
    (lib : Library) (e : Elf) (eh : Ehdr) (a : Answers) (mem : ℕ → Malloc) (p : ℕ) (e' : Elf)
    → IsReady e eh
    → IsTable e
    → e.e_nscn + 1 < 2 ^ 64
    → elf_newscn lib e a mem ≡ (ok p, e')
    → Grown e p e'
unfolding elf_newscn append_scn
elf_newscn-Grown lib e eh a mem p e' r t small h =
    let headers = want_headers lib a.scn_mem (ehdr lib e e.e_class false a.ehdr_mem a.scn0_mem) in
    let steps : elf_newscn lib e a mem ≡ append_scn mem headers = rw (r.elf, r.known_class) in
    let there = want_headers-ready lib e eh r a.ehdr_mem a.scn0_mem a.scn_mem in
    grow_scn-Grown e mem e.e_scn p e' refl t small (sym (ap (append_scn mem) there) ∙ sym steps ∙ h)

pub elf_getscn-ready :
    (lib : Library) (e : Elf) (eh : Ehdr) (a : Answers) (n : ℕ)
    → IsReady e eh
    → IsTable e
    → n < length e.e_scn
    → elf_getscn lib e n a ≡ (ok n, e)
unfolding elf_getscn search_scn
elf_getscn-ready lib e eh a n r t lt =
    let headers = want_headers lib a.scn_mem (ehdr lib e e.e_class false a.ehdr_mem a.scn0_mem) in
    let steps : elf_getscn lib e n a ≡ search_scn n headers = rw (r.elf, r.known_class) in
    let there = want_headers-ready lib e eh r a.ehdr_mem a.scn0_mem a.scn_mem in
    let found : search_scn n (ok tt, e) ≡ (ok n, e) =
      rw (find_scn-Numbered e.e_scn 0 n n (omega arith) lt t.numbered, search_scn) in
    steps ∙ ap (search_scn n) there ∙ found

-- Where `elf_newscn` succeeds, on an object whose sections have their places for their indices, they
-- have them afterwards too; the new section has the next free index, or the index 1 where the object
-- had no section; and `elf_getscn` finds the section by this index. The object must have its header
-- and its section headers, and fewer than 2 ^ 64 - 1 sections.
pub elf_getscn-elf_newscn :
    (lib : Library) (e : Elf) (eh : Ehdr) (a a' : Answers) (mem : ℕ → Malloc) (p : ℕ) (e' : Elf)
    → IsReady e eh
    → IsTable e
    → e.e_nscn + 1 < 2 ^ 64
    → elf_newscn lib e a mem ≡ (ok p, e')
    → IsTable e' × (p ≡ first_index e) × (elf_getscn lib e' p a' ≡ (ok p, e'))
elf_getscn-elf_newscn lib e eh a a' mem p e' r t small h =
    let g = elf_newscn-Grown lib e eh a mem p e' r t small h in
    (
      g.table,
      g.place,
      elf_getscn-ready lib e' eh a' p (Grown-IsReady e eh p e' g r) g.table
          (omega (arith, g.longer)),
    )
