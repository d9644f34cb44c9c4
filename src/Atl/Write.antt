-- ===== src/Atl/Write.antt =====
-- The blocks of a bank that are written: the free list, the lists of written blocks, the block of the
-- metadata and the places of the next writes (NAND_bankstat), with the flush of the metadata.
--
-- A block is a super block, the same block of the four planes, and its pages are numbered 0 to 127.
-- A block list is the list of its block numbers, head first (Ring.Blocks has the links). The banks of
-- a core are numbered as cur_write_bank numbers them. `none` is RSP_ASSERT.
pub mod Nand
pub mod Switch
pub mod Meta
pub mod Assign
pub mod Flush
pub mod Cursor
pub mod Page
pub mod Erased
pub mod Open
mod Tests
use shrd_simulator.Base.{
  ℕ, zero, suc, ◌+◌, ◌-◌, ◌*◌, ◌/◌, ◌%◌, Bool, true, false, Option, none, some, List, [], ◌∷◌, ◌++◌,
  ◌==◌, ltb, leb, if◌then◌else◌, ◌&&◌, ◌||◌,
}
use shrd_simulator.Config.{
  pages_per_blk, planes_per_bank, lpage_per_ppage, blks_per_plane, num_channels, banks_per_channel,
}
use shrd_simulator.Atl.Cache.State.{vc_max, set_at}
use shrd_simulator.Atl.Vpn.{WriteType}

-- The part of NAND_bankstat that the writes and the metadata use.
pub record BankState : Type 0 where
  pub free_list : List ℕ
  pub data_list : List ℕ
  pub rw_log_list : List ℕ
  pub jn_log_list : List ℕ
  pub vcount : ℕ → ℕ
  pub cur_vpn : WriteType → ℕ
  pub write_start : WriteType → Bool
  pub meta_blk : ℕ
  pub cur_meta_vpn : ℕ
  pub meta_start : Bool

-- What is issued to the NAND of a bank.
pub data BlockOp : Type 0 where
  erase_block : (block : ℕ) → BlockOp
  program_at : (block page : ℕ) → BlockOp

abbrev pub counts_pages : ℕ → Bool
counts_pages count =
    leb count (pages_per_blk * planes_per_bank * lpage_per_ppage) || count == vc_max

abbrev pub get_free_block : List ℕ → Option ℕ
get_free_block [] = none
get_free_block (x ∷ xs) = some x

abbrev pub del_blk : ℕ → List ℕ → List ℕ
del_blk x [] = []
del_blk x (y ∷ ys) = if x == y then ys else y ∷ del_blk x ys

abbrev pub insert_tail_blk : ℕ → List ℕ → List ℕ
insert_tail_blk x xs = xs ++ (x ∷ [])

-- The block of the metadata goes to the tail of the free list and `switch_block` takes its place.
abbrev pub switch_meta : (switch_block : ℕ) → BankState → BankState
switch_meta switch_block b = record {
  free_list = del_blk switch_block (insert_tail_blk b.meta_blk b.free_list);
  data_list = b.data_list;
  rw_log_list = b.rw_log_list;
  jn_log_list = b.jn_log_list;
  vcount = set_at b.vcount b.meta_blk 0;
  cur_vpn = b.cur_vpn;
  write_start = b.write_start;
  meta_blk = switch_block;
  cur_meta_vpn = b.cur_meta_vpn;
  meta_start = b.meta_start;
}

abbrev pub set_count : (block count : ℕ) → BankState → BankState
set_count block count b = record {
  free_list = b.free_list;
  data_list = b.data_list;
  rw_log_list = b.rw_log_list;
  jn_log_list = b.jn_log_list;
  vcount = set_at b.vcount block count;
  cur_vpn = b.cur_vpn;
  write_start = b.write_start;
  meta_blk = b.meta_blk;
  cur_meta_vpn = b.cur_meta_vpn;
  meta_start = b.meta_start;
}

-- The erase of the new block of the metadata, when its count says that it is not erased.
abbrev pub erase_switched : (switch_block : ℕ) → BankState → Option (BankState × List BlockOp)
erase_switched switch_block b =
    if counts_pages (b.vcount switch_block)
    then if b.vcount switch_block == 0
      then some (set_count switch_block vc_max b, erase_block switch_block ∷ [])
      else some (b, [])
    else none

-- What the flush does when the block of the metadata is full, by the free block that there is.
abbrev pub switched : Option ℕ → BankState → Option (BankState × List BlockOp)
switched none b = some (b, erase_block b.meta_blk ∷ [])
switched (some switch_block) b = erase_switched switch_block (switch_meta switch_block b)

abbrev pub program_meta : Option (BankState × List BlockOp) → Option (BankState × List BlockOp)
program_meta none = none
program_meta (some (b, ops)) = some (
  record {
    free_list = b.free_list;
    data_list = b.data_list;
    rw_log_list = b.rw_log_list;
    jn_log_list = b.jn_log_list;
    vcount = b.vcount;
    cur_vpn = b.cur_vpn;
    write_start = b.write_start;
    meta_blk = b.meta_blk;
    cur_meta_vpn = (b.cur_meta_vpn + 1) % pages_per_blk;
    meta_start = true;
  },
  ops ++ (program_at b.meta_blk (b.cur_meta_vpn % pages_per_blk) ∷ []),
)

pub bank_meta_flush : BankState → Option (BankState × List BlockOp)
bank_meta_flush b = program_meta (
    if b.cur_meta_vpn == 0 && b.meta_start
    then switched (get_free_block b.free_list) b
    else some (b, []))
