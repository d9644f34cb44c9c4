-- ===== src/Atl/Write/Assign.antt =====
-- assign_new_write_vpn, assign_new_write_vpn_RW and assign_new_write_vpn_JN of ATLWrapper.cpp, with
-- flush_bank: the page of a bank that the next full write buffer goes to.
--
-- The block maps (map_flush) are flushed in the background in this build. `collects` is the call of
-- the garbage collection, where no block is free; `fails` is RSP_ASSERT.
use shrd_simulator.Base.{
  ℕ, zero, suc, ◌+◌, ◌-◌, ◌*◌, ◌/◌, ◌%◌, Bool, true, false, Option, none, some, List, [], ◌∷◌, ◌++◌,
  ◌==◌, if◌then◌else◌,
}
use shrd_simulator.Config.{pages_per_blk, num_channels, banks_per_channel, blks_per_plane}
use shrd_simulator.Atl.Cache.State.{vc_max, set_at}
use shrd_simulator.Atl.Vpn.{WriteType, shrd_sw, shrd_rw, shrd_jn, get_block}
use shrd_simulator.Atl.Write.{
  BankState, BlockOp, erase_block, bank_meta_flush, get_free_block, del_blk, insert_tail_blk,
  counts_pages, set_count,
}

abbrev pub num_banks : ℕ
num_banks = num_channels * banks_per_channel

-- NUM_BBP: the pages of the block bitmaps, each for 256 blocks.
abbrev pub num_bbp : ℕ
num_bbp = (blks_per_plane * banks_per_channel * num_channels + 256 - 1) / 256

pub record Core : Type 0 where
  pub banks : ℕ → BankState
  pub dirty_bbp : ℕ → Bool
  pub cur_write_bank : ℕ

-- What is issued, each with its bank.
abbrev pub Ops : Type 0
Ops = List (ℕ × BlockOp)

abbrev pub Run : Type 0
Run = Option (Core × Ops)

abbrev pub prepend : Ops → Run → Run
prepend ops none = none
prepend ops (some (c, more)) = some (c, ops ++ more)

abbrev pub and_then : Run → (Core → Run) → Run
and_then none f = none
and_then (some (c, ops)) f = prepend ops (f c)

abbrev pub set_bank : ℕ → BankState → Core → Core
set_bank n b c = record {
  banks = set_at c.banks n b;
  dirty_bbp = c.dirty_bbp;
  cur_write_bank = c.cur_write_bank;
}

abbrev pub tagged : ℕ → List BlockOp → Ops
tagged n [] = []
tagged n (op ∷ ops) = (n, op) ∷ tagged n ops

abbrev pub in_bank : ℕ → Core → Option (BankState × List BlockOp) → Run
in_bank n c none = none
in_bank n c (some (b, ops)) = some (set_bank n b c, tagged n ops)

abbrev pub flush_meta : ℕ → Core → Run
flush_meta n c = in_bank n c (bank_meta_flush (c.banks n))

-- The loop of BBP_flush, with `n` pages of block bitmaps left: a flush of the metadata for every
-- dirty one, each in the next bank.
unfoldable pub bbp_loop : (n bank : ℕ) → Core → Run
bbp_loop zero bank c = some (c, [])
bbp_loop (suc n) bank c = elim (c.dirty_bbp (num_bbp - suc n)) [
  | true ↦ and_then (flush_meta bank c) (bbp_loop n ((bank + 1) % num_banks))
  | false ↦ bbp_loop n bank c
]

abbrev pub clear_dirty : Core → Run
clear_dirty c =
    some (record { banks = c.banks; dirty_bbp = λ i. false; cur_write_bank = c.cur_write_bank }, [])

abbrev pub bbp_flush : Core → Run
bbp_flush c = and_then (bbp_loop num_bbp c.cur_write_bank c) clear_dirty

unfoldable pub flush_bank : ℕ → Core → Run
flush_bank n c = and_then (bbp_flush c) (flush_meta n)

abbrev pub same_type : WriteType → WriteType → Bool
same_type shrd_sw shrd_sw = true
same_type shrd_rw shrd_rw = true
same_type shrd_jn shrd_jn = true
same_type t u = false

abbrev pub set_type : {A : Type 0} → (WriteType → A) → WriteType → A → WriteType → A
set_type f t v u = if same_type u t then v else f u

-- The free block `x` goes to the list of the written blocks of its kind.
abbrev pub move_block : WriteType → ℕ → BankState → BankState
move_block t x b = record {
  free_list = del_blk x b.free_list;
  data_list = elim t [ shrd_sw ↦ insert_tail_blk x b.data_list | _ ↦ b.data_list ];
  rw_log_list = elim t [ shrd_rw ↦ insert_tail_blk x b.rw_log_list | _ ↦ b.rw_log_list ];
  jn_log_list = elim t [ shrd_jn ↦ insert_tail_blk x b.jn_log_list | _ ↦ b.jn_log_list ];
  vcount = b.vcount;
  cur_vpn = b.cur_vpn;
  write_start = b.write_start;
  meta_blk = b.meta_blk;
  cur_meta_vpn = b.cur_meta_vpn;
  meta_start = b.meta_start;
}

-- Whether a new block with this count is erased now, and the count that it gets.
abbrev pub new_count : WriteType → ℕ → Option (Bool × ℕ)
new_count shrd_sw count =
    if counts_pages count
    then if count == 0
      then some (true, count)
      else if count == vc_max
      then some (false, 0)
      else some (false, count)
    else none
new_count shrd_rw count =
    if count == 0 then some (true, count) else if count == vc_max then some (false, 0) else none
new_count shrd_jn count = some (true, count)

pub data Assigned : Type 0 where
  assigned : (page : ℕ) → Core → Ops → Assigned
  collects : Assigned
  fails : Assigned

-- set_new_write_vpn and its variants
abbrev pub set_cursor : WriteType → (page : ℕ) → BankState → BankState
set_cursor t page b = record {
  free_list = b.free_list;
  data_list = b.data_list;
  rw_log_list = b.rw_log_list;
  jn_log_list = b.jn_log_list;
  vcount = b.vcount;
  cur_vpn = set_type b.cur_vpn t page;
  write_start = b.write_start;
  meta_blk = b.meta_blk;
  cur_meta_vpn = b.cur_meta_vpn;
  meta_start = b.meta_start;
}

abbrev pub start_writes : WriteType → BankState → BankState
start_writes t b = record {
  free_list = b.free_list;
  data_list = b.data_list;
  rw_log_list = b.rw_log_list;
  jn_log_list = b.jn_log_list;
  vcount = b.vcount;
  cur_vpn = b.cur_vpn;
  write_start = set_type b.write_start t true;
  meta_blk = b.meta_blk;
  cur_meta_vpn = b.cur_meta_vpn;
  meta_start = b.meta_start;
}

-- The next page of the block that is being written; the first write of all takes the page as it is.
abbrev pub advance : WriteType → ℕ → Ops → Core → Assigned
advance t n ops c =
    let b = c.banks n in
    let vpn = b.cur_vpn t in
    if b.write_start t
    then assigned (vpn + 1) (set_bank n (set_cursor t (vpn + 1) b) c) ops
    else assigned vpn (set_bank n (set_cursor t vpn (start_writes t b)) c) ops

-- The first page of a new block.
abbrev pub fresh : WriteType → (n block : ℕ) → Ops → Core → Option (Bool × ℕ) → Assigned
fresh t n block ops c none = fails
fresh t n block ops c (some (erases, count)) =
    assigned (block * pages_per_blk)
      (set_bank n (set_cursor t (block * pages_per_blk) (set_count block count (c.banks n))) c)
      (if erases then ops ++ ((n, erase_block block) ∷ []) else ops)

abbrev pub take_page : WriteType → (n block : ℕ) → Ops → Core → Assigned
take_page t n block ops c =
    let b = c.banks n in
    if block == get_block (b.cur_vpn t)
    then advance t n ops c
    else fresh t n block ops c (new_count t (b.vcount block))

abbrev pub after_flush : WriteType → (n block : ℕ) → Run → Assigned
after_flush t n block none = fails
after_flush t n block (some (c, ops)) = take_page t n block ops c

-- What happens at the last page of a block, by the free block that there is.
abbrev pub new_block : WriteType → ℕ → Core → Option ℕ → Assigned
new_block t n c none = collects
new_block t n c (some x) =
    after_flush t n x (flush_bank n (set_bank n (move_block t x (c.banks n)) c))

unfoldable pub assign_new_write_vpn_of : WriteType → ℕ → Core → Assigned
assign_new_write_vpn_of t n c =
    let b = c.banks n in
    let vpn = b.cur_vpn t in
    if vpn % pages_per_blk == pages_per_blk - 1
    then new_block t n c (get_free_block b.free_list)
    else take_page t n (get_block vpn) [] c

abbrev pub assign_new_write_vpn : ℕ → Core → Assigned
assign_new_write_vpn n c = assign_new_write_vpn_of shrd_sw n c

abbrev pub assign_new_write_vpn_rw : ℕ → Core → Assigned
assign_new_write_vpn_rw n c = assign_new_write_vpn_of shrd_rw n c

abbrev pub assign_new_write_vpn_jn : ℕ → Core → Assigned
assign_new_write_vpn_jn n c = assign_new_write_vpn_of shrd_jn n c
