-- ===== src/Atl/Collect.antt =====
-- The victim list of a bank in the incremental garbage collection of ATLWrapper.cpp:
-- decrease_vcount_of_vt_block and erase_victim_block.
--
-- A block list is the list of its block numbers, head first. `none` is RSP_ASSERT.
pub mod Decrease
pub mod Erase
mod Tests
use shrd_simulator.Base.{
  ℕ, ◌+◌, ◌-◌, ◌*◌, ◌/◌, ◌≤◌, ◌<◌, ◌≡◌, ◌≢◌, refl, sym, ap, subst, ◌∙◌, Bool, true, false, Option,
  none, some, List, [], ◌∷◌, ◌++◌, arith, ◌==◌, ltb, if◌then◌else◌, Bool-cases, Option-cases, inl,
  inr, not, ==_iff, has, IsDistinct, ◌||◌, ◌⊎◌,
}
use shrd_simulator.Config.{pages_per_blk, planes_per_bank}
use shrd_simulator.Atl.Cache.State.{vc_max, set_at}
use shrd_simulator.Atl.Vpn.{get_block}
use shrd_simulator.Atl.Write.{
  BlockOp, erase_block, counts_pages, get_free_block, del_blk, insert_tail_blk,
}
use shrd_simulator.Atl.Write.Nand.{Nand, run_ops, has-tail, tail-IsDistinct, has-apart}

-- The part of NAND_bankstat that the two functions use.
pub record GcBank : Type 0 where
  pub victim_list : List ℕ
  pub free_list : List ℕ
  pub vcount : ℕ → ℕ
  pub gc_blk : ℕ
  pub cur_vt_vpn : ℕ

-- The loop of decrease_vcount_of_vt_block over the blocks that are left.
pub decrease_loop : List ℕ → (count : ℕ) → (ℕ → ℕ) → Option (ℕ → ℕ)
decrease_loop [] count vcount = none
decrease_loop (x ∷ xs) count vcount =
    let rest = decrease_loop xs (count - vcount x) (set_at vcount x 0) in
    if not (counts_pages (vcount x))
    then none
    else if ltb (vcount x) count
    then rest
    else if counts_pages (vcount x - count)
    then some (set_at vcount x (vcount x - count))
    else none

pub decrease_vcount_of_vt_block : (count : ℕ) → GcBank → Option GcBank
decrease_vcount_of_vt_block count b = elim (decrease_loop b.victim_list count b.vcount) [
  | none ↦ none
  | some vcount ↦ some (record b { vcount = vcount })
]

-- The first victim without a valid page.
unfoldable pub first_empty : List ℕ → (ℕ → ℕ) → Option ℕ
first_empty [] vcount = none
first_empty (x ∷ xs) vcount =
    let rest = first_empty xs vcount in if vcount x == 0 then some x else rest

-- The victim `x` is erased, and goes to the free list in the end.
abbrev pub erased : ℕ → GcBank → GcBank
erased x b = record {
  victim_list = del_blk x b.victim_list;
  free_list = b.free_list;
  vcount = set_at b.vcount x vc_max;
  gc_blk = b.gc_blk;
  cur_vt_vpn = if x == get_block (b.cur_vt_vpn / planes_per_bank) then vc_max else b.cur_vt_vpn;
}

abbrev pub freed : ℕ → GcBank → GcBank
freed x b = record {
  victim_list = b.victim_list;
  free_list = insert_tail_blk x b.free_list;
  vcount = b.vcount;
  gc_blk = b.gc_blk;
  cur_vt_vpn = b.cur_vt_vpn;
}

abbrev pub set_gc_block : ℕ → GcBank → GcBank
set_gc_block y b = record {
  victim_list = b.victim_list;
  free_list = del_blk y b.free_list;
  vcount = b.vcount;
  gc_blk = y;
  cur_vt_vpn = b.cur_vt_vpn;
}

abbrev pub Erased : Type 0
Erased = Option (ℕ × GcBank × List BlockOp)

-- A free block becomes the block of the garbage collection, erased if its count says that it is not.
abbrev pub new_gc_block : (x : ℕ) → Option ℕ → GcBank → Erased
new_gc_block x none b = none
new_gc_block x (some y) b =
    if counts_pages (b.vcount y)
    then some (
      1,
      freed x (set_gc_block y b),
      erase_block x ∷ (if b.vcount y == 0 then erase_block y ∷ [] else []),
    )
    else none

abbrev pub erase_victim : (x : ℕ) → GcBank → Erased
erase_victim x b =
    if b.gc_blk == vc_max
    then new_gc_block x (get_free_block b.free_list) b
    else some (1, freed x b, erase_block x ∷ [])

abbrev pub erase_found : Option ℕ → GcBank → Erased
erase_found none b = some (0, b, [])
erase_found (some x) b = erase_victim x (erased x b)

abbrev pub no_blocks : List ℕ → Bool
no_blocks [] = true
no_blocks (x ∷ xs) = false

-- erase_victim_block, with what it returns.
pub erase_victim_block : GcBank → Erased
erase_victim_block b =
    if no_blocks b.victim_list then none else erase_found (first_empty b.victim_list b.vcount) b
