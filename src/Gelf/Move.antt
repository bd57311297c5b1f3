-- ===== src/Gelf/Move.antt =====
-- libelf/gelf_move.c: move entries.
use elftoolchain_libelf.Base.{ℕ, ◌≡◌, true, Option, none, some, Bool, arith}
use elftoolchain_libelf.Base.Int.{ℤ}
use elftoolchain_libelf.Base.Outcome.{Result, ok}
use elftoolchain_libelf.Format.Types.{t_move}
use elftoolchain_libelf.Gelf.Entry.{LibelfData, Stored, get_entry, update_entry}
use elftoolchain_libelf.Gelf.Entry.Laws.{get_entry-update}
use elftoolchain_libelf.Gelf.Member.{copy_u32}

-- Elf32_Move and Elf64_Move
pub record Move : Type 0 where
  pub m_value : ℕ
  pub m_info : ℕ
  pub m_poffset : ℕ
  pub m_repeat : ℕ
  pub m_stride : ℕ

abbrev pub widen_move : Move → Move
widen_move r = r

-- The assignments to an Elf32_Move in `gelf_update_move`.
unfoldable pub store_move : Move → Move → Stored Move
unfolding copy_u32
store_move gm old =
    let valued = record old { m_value = gm.m_value } in
    copy_u32 gm.m_info valued λ i.
      let packed = record valued { m_info = i } in
      copy_u32 gm.m_poffset packed
        λ p. (record packed { m_poffset = p; m_repeat = gm.m_repeat; m_stride = gm.m_stride }, none)

unfoldable pub gelf_getmove : Option (LibelfData Move) → ℤ → (dst : Bool) → Result Move
unfolding get_entry
gelf_getmove ed ndx dst = get_entry t_move widen_move ed ndx dst

unfoldable pub gelf_update_move :
    Option (LibelfData Move) → ℤ → Option Move → Result (Unit {0}) × Option (LibelfData Move)
unfolding update_entry store_move
gelf_update_move ed ndx gs = update_entry t_move store_move ed ndx gs

store_move-Undoes :
    (new old : Move) → (store_move new old).1 ≡ none → widen_move (store_move new old).0 ≡ new
unfolding store_move
store_move-Undoes new old h = ground arith

-- What a successful `gelf_update_move` wrote is what `gelf_getmove` returns, in either class.
pub gelf_getmove-update_move :
    (d d' : LibelfData Move) (ndx : ℤ) (gs : Move)
    → gelf_update_move (some d) ndx (some gs) ≡ (ok tt, some d')
    → gelf_getmove (some d') ndx true ≡ ok gs
unfolding gelf_update_move gelf_getmove
gelf_getmove-update_move d d' ndx gs h =
    get_entry-update t_move widen_move store_move d d' ndx gs (λ old e. store_move-Undoes gs old e)
      h
