-- ===== src/Atl/Ftl.antt =====
-- The pages of a core as writes, remaps and the garbage collection share them (NAND_bankstat of
-- ATLWrapper.h): the page map, the write buffers, the valid pages, the remaps that blocks wait for and
-- the buffer of the garbage collection.
--
-- A bank has the number that cur_write_bank gives it, a write buffer the number of its channel, bank
-- and kind, and the bit of a half page in the bitmaps of the blocks is named by its address, whose
-- digits are the channel, bank, block and offset of the source. `none` is RSP_ASSERT.
pub mod Counts
pub mod Located
pub mod One
use shrd_simulator.Base.{
  ℕ, zero, suc, ◌+◌, ◌-◌, ◌*◌, ◌/◌, ◌%◌, Bool, true, false, Option, none, some, ◌==◌, if◌then◌else◌,
  ltb, ◌&&◌, ◌||◌,
}
use shrd_simulator.Config.{
  u32, invalid_lpn, pages_per_bank, lpage_per_ppage, num_channels, banks_per_channel,
  planes_per_bank, blks_per_plane, num_lblk, pages_per_blk,
}
use shrd_simulator.Atl.Cache.State.{set_at, vc_max, num_pvpn}
use shrd_simulator.Atl.Vpn.{
  get_channel_from_vpn, get_bank_from_vpn, get_super_block, get_block, buffer_place,
  is_in_write_buffer,
}
use shrd_simulator.Atl.Write.{counts_pages, set_count}
use shrd_simulator.Atl.Write.Assign.{Core, set_bank}
use shrd_simulator.Atl.Buffer.{WriteBuf, Memory}

infixl 5 ◌>>=◌
abbrev pub ◌>>=◌ : {A B : Type 0} → Option A → (A → Option B) → Option B
none >>= f = none
some a >>= f = f a

-- The slots of GCbuf_lpn that are in use, with their REQ_LPN; slot `plane * 2 + offset`.
pub record GcBuffer : Type 0 where
  pub index : ℕ
  pub lpn : ℕ → ℕ
  pub cur_vt_vpn : ℕ
  pub num_valid : ℕ

-- remained_remap_cnt of the blocks, remap_inbuff_cnt, and the buffer of the garbage collection.
pub record PageBank : Type 0 where
  pub remained : ℕ → ℕ
  pub inbuff : ℕ
  pub gc : GcBuffer

pub record Ftl : Type 0 where
  pub map_of : ℕ → ℕ
  pub memory : Memory
  pub core : Core
  pub pages : ℕ → PageBank
  pub bufs : ℕ → WriteBuf
  pub valid : ℕ → Bool

abbrev pub bank_number : (channel bank : ℕ) → ℕ
bank_number channel bank = bank * num_channels + channel

abbrev pub buf_number : (channel bank write_type : ℕ) → ℕ
buf_number channel bank write_type = (channel * banks_per_channel + bank) * 3 + write_type

-- The bank and the super block of an address in NAND.
abbrev pub nand_bank : ℕ → ℕ
nand_bank vpn = bank_number (get_channel_from_vpn vpn) (get_bank_from_vpn vpn)

abbrev pub nand_block : ℕ → ℕ
nand_block vpn = get_super_block (vpn % (pages_per_bank * lpage_per_ppage))

-- The bank, the write buffer and the slot of a code.
abbrev pub code_bank : ℕ → ℕ
code_bank vpn = let p = buffer_place vpn in bank_number p.channel p.bank

abbrev pub code_buf : ℕ → ℕ
code_buf vpn = let p = buffer_place vpn in buf_number p.channel p.bank p.write_type

abbrev pub code_slot : ℕ → ℕ
code_slot vpn = let p = buffer_place vpn in p.plane * lpage_per_ppage + p.buf_offset

-- The number of the page that the slot of a code holds.
abbrev pub held : Ftl → ℕ → ℕ
held s vpn = (s.bufs (code_buf vpn)).req_lpn (code_slot vpn)

abbrev pub with_entry : (lpn vpn : ℕ) → Ftl → Ftl
with_entry lpn vpn s = record {
  map_of = set_at s.map_of lpn vpn;
  memory = s.memory;
  core = s.core;
  pages = s.pages;
  bufs = s.bufs;
  valid = s.valid;
}

-- What the map may hold, and the pages of a core.
abbrev pub may_hold : (vpn : ℕ) → Bool
may_hold vpn = ltb vpn num_pvpn || vpn == vc_max || is_in_write_buffer vpn

abbrev pub core_pages : ℕ
core_pages = num_lblk * pages_per_blk * lpage_per_ppage

-- get_vpn and set_vpn with their assertions.
abbrev pub get_vpn : (lpn : ℕ) → Ftl → Option ℕ
get_vpn lpn s = if ltb lpn core_pages && may_hold (s.map_of lpn) then some (s.map_of lpn) else none

abbrev pub set_vpn : (lpn vpn : ℕ) → Ftl → Option Ftl
set_vpn lpn vpn s = if ltb lpn core_pages && may_hold vpn then some (with_entry lpn vpn s) else none

abbrev pub set_req : (slot lpn : ℕ) → WriteBuf → WriteBuf
set_req slot lpn b = record {
  index = b.index;
  bits = b.bits;
  addr = b.addr;
  sectors = b.sectors;
  req_lpn = set_at b.req_lpn slot lpn;
  remap_lpn = b.remap_lpn;
}

-- The slot of a code gets the number of a page.
abbrev pub name_slot : (vpn lpn : ℕ) → Ftl → Ftl
name_slot vpn lpn s = record {
  map_of = s.map_of;
  memory = s.memory;
  core = s.core;
  pages = s.pages;
  bufs = set_at s.bufs (code_buf vpn) (set_req (code_slot vpn) lpn (s.bufs (code_buf vpn)));
  valid = s.valid;
}

abbrev pub set_pages : (n : ℕ) → PageBank → Ftl → Ftl
set_pages n p s = record {
  map_of = s.map_of;
  memory = s.memory;
  core = s.core;
  pages = set_at s.pages n p;
  bufs = s.bufs;
  valid = s.valid;
}

abbrev pub set_core : Core → Ftl → Ftl
set_core c s = record {
  map_of = s.map_of;
  memory = s.memory;
  core = c;
  pages = s.pages;
  bufs = s.bufs;
  valid = s.valid;
}

-- block_to_BBPN
abbrev bbpn_of : (vpn : ℕ) → ℕ
bbpn_of vpn =
    ((get_channel_from_vpn vpn * banks_per_channel + get_bank_from_vpn vpn) * blks_per_plane
      + nand_block vpn)
    / 256

abbrev mark_dirty : (vpn : ℕ) → Core → Core
mark_dirty vpn c = record {
  banks = c.banks;
  dirty_bbp = set_at c.dirty_bbp (bbpn_of vpn) true;
  cur_write_bank = c.cur_write_bank;
}

-- validate_vpn and invalidate_vpn
abbrev mark_valid : (vpn : ℕ) → Bool → Ftl → Ftl
mark_valid vpn mark s = record {
  map_of = s.map_of;
  memory = s.memory;
  core = mark_dirty vpn s.core;
  pages = s.pages;
  bufs = s.bufs;
  valid = set_at s.valid vpn mark;
}

abbrev pub validate_vpn : ℕ → Ftl → Ftl
validate_vpn vpn s = mark_valid vpn true s

abbrev pub invalidate_vpn : ℕ → Ftl → Ftl
invalidate_vpn vpn s = mark_valid vpn false s

abbrev pub count_of : (n block : ℕ) → Ftl → ℕ
count_of n block s = (s.core.banks n).vcount block

-- get_vcount and set_vcount, with the test of the count.
abbrev pub get_vcount : (n block : ℕ) → Ftl → Option ℕ
get_vcount n block s = let v = count_of n block s in if counts_pages v then some v else none

abbrev pub set_vcount : (n block count : ℕ) → Ftl → Option Ftl
set_vcount n block count s =
    if counts_pages count
    then some (set_core (set_bank n (set_count block count (s.core.banks n)) s.core) s)
    else none

-- check_n_invalid_GCbuff: the loop over the slots of the buffer, with `n` left.
abbrev gc_found : (iter block : ℕ) → GcBuffer → Option GcBuffer
gc_found iter block g =
    let lpn = set_at g.lpn iter invalid_lpn in
    if get_block (g.cur_vt_vpn / planes_per_bank) == block
    then if g.num_valid == 0
      then none
      else some (record {
        index = g.index;
        lpn = lpn;
        cur_vt_vpn = g.cur_vt_vpn;
        num_valid = g.num_valid - 1;
      })
    else some
        (record { index = g.index; lpn = lpn; cur_vt_vpn = g.cur_vt_vpn; num_valid = g.num_valid })

unfoldable pub gc_loop : (n lpn block : ℕ) → GcBuffer → Option GcBuffer
gc_loop zero lpn block g = some g
gc_loop (suc n) lpn block g =
    let rest = gc_loop n lpn block g in
    if g.lpn (g.index - suc n) == lpn then gc_found (g.index - suc n) block g else rest

abbrev pub set_gc : GcBuffer → PageBank → PageBank
set_gc g p = record { remained = p.remained; inbuff = p.inbuff; gc = g }

abbrev gc_checked : (n : ℕ) → Option GcBuffer → Ftl → Option Ftl
gc_checked n none s = none
gc_checked n (some g) s = some (set_pages n (set_gc g (s.pages n)) s)

pub check_n_invalid_gcbuff : (n lpn block : ℕ) → Ftl → Option Ftl
check_n_invalid_gcbuff n lpn block s =
    let g = (s.pages n).gc in gc_checked n (gc_loop g.index lpn block g) s

-- What a page that leaves its place in NAND does to the block: the buffer of the garbage collection,
-- the bit and the count, which is a 32-bit number.
abbrev pub count_down : (n block : ℕ) → Option ℕ → Ftl → Option Ftl
count_down n block none s = none
count_down n block (some v) s = set_vcount n block ((v + u32 - 1) % u32) s

abbrev leave_checked : (vpn : ℕ) → Option Ftl → Option Ftl
leave_checked vpn none = none
leave_checked vpn (some s) =
    let t = invalidate_vpn vpn s in
    count_down (nand_bank vpn) (nand_block vpn) (get_vcount (nand_bank vpn) (nand_block vpn) t) t

unfoldable pub leave_nand : (vpn lpn : ℕ) → Ftl → Option Ftl
leave_nand vpn lpn s =
    leave_checked vpn (check_n_invalid_gcbuff (nand_bank vpn) lpn (nand_block vpn) s)
