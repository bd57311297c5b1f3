-- ===== src/Gelf/Entry/Laws.antt =====
-- The laws of the shared part of the gelf_*.c functions.
use elftoolchain_libelf.Base.{
  ℕ, ◌≡◌, refl, ap, ◌∙◌, ◌≢◌, inl, inr, Bool, true, false, Option, none, some, List, length,
  length-set, set, get_elem?, get_elem?-set_self, get_elem?-set_ne, get_elem?-lt, Option-cases,
  arith,
}
use mathlib.Core.Path.{subst}
use elftoolchain_libelf.Base.Int.{ℤ, pos, negsuc}
use elftoolchain_libelf.Base.Outcome.{bind-ok, Result, ok, err, fault}
use elftoolchain_libelf.Format.Types.{ElfClass, class_none, class_32, class_64, ElfType, is_type}
use elftoolchain_libelf.Format.SectionType.{xlate_shtype}
use elftoolchain_libelf.Gelf.Entry.{
  LibelfData, Stored, check_entry, read_entry, write_entry, checked_write, get_entry, update_entry,
  store_class, widen_class, index_of,
}

module _ {A : Type 0} (t : ElfType) (widen : A → A) (store : A → A → Stored A) where
  -- What a write that succeeds has done.
  record Written (d : LibelfData A) (n : ℕ) (new : A) (ec : ElfClass) (d' : LibelfData A)
      : Type 0 where
    old : A
    there : get_elem? d.d_buf n ≡ some old
    complete : (store_class ec store new old).1 ≡ none
    result : d' ≡ record d { d_buf = set d.d_buf n (store_class ec store new old).0 }

  write_entry-Written :
      (d d' : LibelfData A) (n : ℕ) (new : A) (ec : ElfClass)
      → write_entry store d n new ec ≡ (ok tt, d')
      → Written d n new ec d'
  unfolding write_entry
  write_entry-Written d d' n new ec e = elim (Option-cases (get_elem? d.d_buf n)) [
    | inl missing ↦ ground (arith, missing)
    | inr (old, there) ↦ record {
      old = old;
      there = there;
      complete = ground (arith, there);
      result = ground (arith, there);
    }
  ]

  -- `widen` undoes every complete assignment of the members.
  abbrev pub Undoes : A → Type 0
  Undoes new = (old : A) → (store new old).1 ≡ none → widen (store new old).0 ≡ new

  widen-store :
      (ec : ElfClass) (new old : A)
      → Undoes new
      → (store_class ec store new old).1 ≡ none
      → widen_class ec widen (store_class ec store new old).0 ≡ new
  widen-store class_32 new old law e = law old e
  widen-store class_64 new old law e = refl
  widen-store class_none new old law e = refl

  read-Written :
      (d d' : LibelfData A) (n : ℕ) (new : A) (ec : ElfClass)
      → Undoes new
      → Written d n new ec d'
      → read_entry widen d' n ec ≡ ok new
  unfolding read_entry
  read-Written d d' n new ec law w =
      rw
        (
          w.result,
          get_elem?-set_self d.d_buf n (store_class ec store new w.old).0
              (get_elem?-lt d.d_buf n w.there),
          read_entry,
        )
        (ap ok (widen-store ec new w.old law w.complete))

  check_entry-d_buf :
      (d : LibelfData A) (ndx : ℤ) (buf : List A)
      → check_entry t (record d { d_buf = buf }) ndx true ≡ check_entry t d ndx true
  unfolding check_entry
  check_entry-d_buf d (pos n) buf = refl
  check_entry-d_buf d (negsuc n) buf = refl

  checked_write-ok :
      (d d' : LibelfData A) (n : ℕ) (new : A) (r : Result ElfClass)
      → checked_write store d n new r ≡ (ok tt, d')
      → (ec : ElfClass) × (r ≡ ok ec) × Written d n new ec d'
  unfolding checked_write
  checked_write-ok d d' n new (ok ec) e = (ec, refl, write_entry-Written d d' n new ec e)
  checked_write-ok d d' n new (err c) e = ground arith
  checked_write-ok d d' n new fault e = ground arith

  update_entry-ok :
      (d d' : LibelfData A) (ndx : ℤ) (new : A)
      → update_entry t store (some d) ndx (some new) ≡ (ok tt, some d')
      → (ec : ElfClass) × (check_entry t d ndx true ≡ ok ec) × Written d (index_of ndx) new ec d'
  unfolding update_entry
  update_entry-ok d d' ndx new e =
      checked_write-ok d d' (index_of ndx) new (check_entry t d ndx true) (ground (arith, e))

  -- Reading back what a successful update wrote.
  pub get_entry-update :
      (d d' : LibelfData A) (ndx : ℤ) (new : A)
      → Undoes new
      → update_entry t store (some d) ndx (some new) ≡ (ok tt, some d')
      → get_entry t widen (some d') ndx true ≡ ok new
  unfolding get_entry
  get_entry-update d d' ndx new law e =
      let (ec, checked, w) = update_entry-ok d d' ndx new e in
      let same : check_entry t d' ndx true ≡ ok ec =
        ap (λ x. check_entry t x ndx true) w.result
        ∙ (check_entry-d_buf d ndx (set d.d_buf (index_of ndx) (store_class ec store new w.old).0)
            ∙ checked) in
      rw same (read-Written d d' (index_of ndx) new ec law w)

  -- An update, whatever its outcome, leaves the other entries, the size and the section alone.
  pub record Frame (n : ℕ) (d d' : LibelfData A) : Type 0 where
    pub others : (j : ℕ) → n ≢ j → get_elem? d'.d_buf j ≡ get_elem? d.d_buf j
    pub size : d'.d_size ≡ d.d_size
    pub scn : d'.d_scn ≡ d.d_scn
    pub type : d'.d_type ≡ d.d_type
    pub count : length d'.d_buf ≡ length d.d_buf

  Frame-refl : (n : ℕ) (d : LibelfData A) → Frame n d d
  Frame-refl n d = record {
    others = λ j ne. refl;
    size = refl;
    scn = refl;
    type = refl;
    count = refl;
  }

  write_entry-Frame :
      (d : LibelfData A) (n : ℕ) (new : A) (ec : ElfClass)
      → Frame n d (write_entry store d n new ec).1
  unfolding write_entry
  write_entry-Frame d n new ec = elim (Option-cases (get_elem? d.d_buf n)) [
    | inl missing ↦ rw (missing, write_entry) (Frame-refl n d)
    | inr (old, there) ↦
        rw (there, write_entry)
          (record {
            others = λ j ne. get_elem?-set_ne d.d_buf n j (store_class ec store new old).0 ne;
            size = refl;
            scn = refl;
            type = refl;
            count = length-set d.d_buf n (store_class ec store new old).0;
          })
  ]

  checked_write-Frame :
      (d : LibelfData A) (n : ℕ) (new : A) (r : Result ElfClass)
      → Frame n d (checked_write store d n new r).1
  unfolding checked_write
  checked_write-Frame d n new (ok ec) = write_entry-Frame d n new ec
  checked_write-Frame d n new (err c) = Frame-refl n d
  checked_write-Frame d n new fault = Frame-refl n d

  pub update_entry-Frame :
      (d d' : LibelfData A) (ndx : ℤ) (given : Option A) (r : Result (Unit {0}))
      → update_entry t store (some d) ndx given ≡ (r, some d')
      → Frame (index_of ndx) d d'
  unfolding update_entry
  update_entry-Frame d d' ndx none r e =
      subst (λ x. Frame (index_of ndx) d x) (ground (arith, e)) (Frame-refl (index_of ndx) d)
  update_entry-Frame d d' ndx (some new) r e =
      subst (λ x. Frame (index_of ndx) d x) (ground (arith, e))
        (checked_write-Frame d (index_of ndx) new (check_entry t d ndx true))

-- Entries of a type that no section type stands for are never found.
module _ {A : Type 0} (t : ElfType) (widen : A → A)
    (none_has : (sht : ℕ) → is_type (xlate_shtype sht) t ≡ false) where
  check_entry-ne-ok :
      (d : LibelfData A) (ndx : ℤ) (given : Bool) (ec : ElfClass)
      → check_entry t d ndx given ≢ ok ec
  unfolding check_entry
  check_entry-ne-ok d (negsuc n) given ec = λ e. ground (arith, e)
  check_entry-ne-ok d (pos n) false ec = λ e. ground (arith, e)
  check_entry-ne-ok d (pos n) true ec = elim (Option-cases d.d_scn) [
    | inl no_scn ↦ λ e. ground (arith, e, no_scn)
    | inr (scn, at_scn) ↦ λ e. ground (arith, e, at_scn, none_has scn.sh_type)
  ]

  pub get_entry-ne-ok :
      (ed : Option (LibelfData A)) (ndx : ℤ) (given : Bool) (a : A)
      → get_entry t widen ed ndx given ≢ ok a
  unfolding get_entry
  get_entry-ne-ok none ndx given a = λ e. ground (arith, e)
  get_entry-ne-ok (some d) ndx given a = λ e.
      let (ec, checked, rest) = bind-ok (check_entry t d ndx given) e in
      check_entry-ne-ok d ndx given ec checked
