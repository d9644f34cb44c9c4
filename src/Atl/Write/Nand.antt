-- ===== src/Atl/Write/Nand.antt =====
-- The NAND of a bank as a counter of programmed pages for each block, and the invariant of the free
-- blocks and of the block of the metadata of ATLWrapper.cpp.
use shrd_simulator.Base.{
  ℕ, ◌+◌, ◌<◌, ◌≡◌, refl, ap, true, false, Option, none, some, List, [], ◌∷◌, ◌++◌, arith, ◌==◌,
  if◌then◌else◌, ◌&&◌, ◌||◌, has, IsDistinct, Bool-cases, Option-cases, inl, inr,
}
use shrd_simulator.Config.{pages_per_blk}
use shrd_simulator.Atl.Cache.State.{vc_max, set_at}
use shrd_simulator.Atl.Write.{BankState, BlockOp, erase_block, program_at, del_blk}

-- The NAND of a bank: the number of pages of each block that are programmed since its erase. A page
-- is programmed only as the next one of its block.
abbrev pub Nand : Type 0
Nand = ℕ → ℕ

abbrev pub run_op : BlockOp → Nand → Option Nand
run_op (erase_block block) nand = some (set_at nand block 0)
run_op (program_at block page) nand =
    if nand block == page then some (set_at nand block (page + 1)) else none

abbrev pub run_next : (Nand → Option Nand) → Option Nand → Option Nand
run_next f none = none
run_next f (some nand) = f nand

unfoldable pub run_ops : List BlockOp → Nand → Option Nand
run_ops [] nand = some nand
run_ops (op ∷ ops) nand = run_next (run_ops ops) (run_op op nand)

pub run_ops-append :
    (ops more : List BlockOp) (nand : Nand)
    → run_ops (ops ++ more) nand ≡ run_next (run_ops more) (run_ops ops nand)
unfolding run_ops
run_ops-append [] more nand = refl
run_ops-append (op ∷ ops) more nand = elim (Option-cases (run_op op nand)) [
  | inl e ↦ rw e refl
  | inr (n, e) ↦ rw e (run_ops-append ops more n)
]

pub has-tail : (x y : ℕ) (xs : List ℕ) → has x (xs ++ (y ∷ [])) ≡ has x xs || (x == y)
has-tail x y [] = ground arith
has-tail x y (z ∷ xs) = ground (arith, has-tail x y xs)

pub tail-IsDistinct :
    (y : ℕ) (xs : List ℕ) → IsDistinct xs → has y xs ≡ false → IsDistinct (xs ++ (y ∷ []))
tail-IsDistinct y [] d away = (refl, d)
tail-IsDistinct y (z ∷ xs) d away =
    (ground (arith, has-tail z y xs, d.0), tail-IsDistinct y xs d.1 (ground arith))

pub has-apart : (x y : ℕ) (xs : List ℕ) → has x xs ≡ true → has y xs ≡ false → (x == y) ≡ false
has-apart x y xs hx hy = elim (Bool-cases (x == y)) [
  | inl e ↦
      let at : x ≡ y = ground arith in
      let both : has x xs ≡ has y xs = ap (λ (z : ℕ). has z xs) at in absurd (ground arith)
  | inr n ↦ n
]

pub del-head : (x : ℕ) (xs : List ℕ) → del_blk x (x ∷ xs) ≡ xs
del-head x xs = ground arith

-- The free blocks with their counts and the block of the metadata, where `at` pages of the latter
-- are programmed.
pub record FreeOk (b : BankState) (nand : Nand) (at : ℕ) : Type 0 where
  pub distinct : IsDistinct b.free_list
  pub counted :
      (x : ℕ) → has x b.free_list ≡ true → (b.vcount x == 0 || b.vcount x == vc_max) ≡ true
  pub blank : (x : ℕ) → has x b.free_list ≡ true → (b.vcount x == vc_max) ≡ true → nand x ≡ 0
  pub apart : has b.meta_blk b.free_list ≡ false
  pub place : b.cur_meta_vpn < pages_per_blk
  pub written : nand b.meta_blk ≡ at

abbrev pub meta_at : BankState → ℕ
meta_at b = if b.cur_meta_vpn == 0 && b.meta_start then pages_per_blk else b.cur_meta_vpn

-- The state between two flushes.
abbrev pub MetaOk : BankState → Nand → Type 0
MetaOk b nand = FreeOk b nand (meta_at b)

abbrev pub Taken : BankState → ℕ → Type 0
Taken b x = (has x b.free_list ≡ false) × ((x == b.meta_blk) ≡ false)

-- What the flush leaves: the lists of written blocks, the places of the next writes, and the blocks
-- that are taken.
pub record Frame (b : BankState) (nand : Nand) (c : BankState) (nand1 : Nand) : Type 0 where
  pub data_list : c.data_list ≡ b.data_list
  pub rw_log_list : c.rw_log_list ≡ b.rw_log_list
  pub jn_log_list : c.jn_log_list ≡ b.jn_log_list
  pub cur_vpn : c.cur_vpn ≡ b.cur_vpn
  pub write_start : c.write_start ≡ b.write_start
  pub taken : (x : ℕ) → Taken b x → Taken c x
  pub pages : (x : ℕ) → Taken b x → nand1 x ≡ nand x
  pub vcount : (x : ℕ) → Taken b x → c.vcount x ≡ b.vcount x
