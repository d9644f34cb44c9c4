-- ===== src/Atl/Write/Open.antt =====
-- The loop of RSP_Open over the banks (ATLWrapper.cpp): the blocks of a bank after the start.
--
-- `none` is a bank that has too few blocks. The block of the garbage collection is taken from the
-- free list, and is none of the state here.
use shrd_simulator.Base.{
  ℕ, zero, suc, ◌+◌, ◌-◌, ◌*◌, ◌/◌, ◌≤◌, ◌<◌, ◌≡◌, refl, sym, ap, subst, ◌∙◌, true, false, Option,
  none, some, List, [], ◌∷◌, ◌++◌, arith, ◌==◌, has, IsDistinct,
}
use shrd_simulator.Config.{
  pages_per_blk, blks_per_plane, num_lblk, lpage_per_ppage, num_channels, banks_per_channel,
}
use shrd_simulator.Atl.Cache.State.{vc_max, num_pages_per_map}
use shrd_simulator.Atl.Vpn.{WriteType, shrd_sw, shrd_rw, shrd_jn}
use shrd_simulator.Atl.Write.{BankState, BlockOp, erase_block, get_free_block, del_blk, set_count}
use shrd_simulator.Atl.Write.Nand.{Nand, run_ops, MetaOk}
use shrd_simulator.Atl.Write.Assign.{move_block, set_cursor, same_type}
use shrd_simulator.Atl.Write.Cursor.{CursorOk, BankOk, block_of}

-- MAP_ENTRY_BLK_PER_BANK
abbrev pub map_entry_blk_per_bank : ℕ
map_entry_blk_per_bank =
    let num_map_entry =
      (num_lblk * pages_per_blk * lpage_per_ppage + num_pages_per_map - 1) / num_pages_per_map in
    let num_map_entry_blk = (num_map_entry + pages_per_blk - 1) / pages_per_blk in
    (num_map_entry_blk + banks_per_channel * num_channels - 1) / (banks_per_channel * num_channels)
    + 5

-- The free list after `n` rounds of the loop, which inserts the blocks at its front.
unfoldable pub init_free : ℕ → List ℕ
init_free zero = []
init_free (suc n) = n ∷ init_free n

abbrev pub init_bank : BankState
init_bank = record {
  free_list = init_free blks_per_plane;
  data_list = [];
  rw_log_list = [];
  jn_log_list = [];
  vcount = λ block. 0;
  cur_vpn = λ t. 0;
  write_start = λ t. false;
  meta_blk = 0;
  cur_meta_vpn = 0;
  meta_start = false;
}

abbrev pub Opened : Type 0
Opened = Option (BankState × List BlockOp)

abbrev del_free : ℕ → BankState → BankState
del_free x b = record {
  free_list = del_blk x b.free_list;
  data_list = b.data_list;
  rw_log_list = b.rw_log_list;
  jn_log_list = b.jn_log_list;
  vcount = b.vcount;
  cur_vpn = b.cur_vpn;
  write_start = b.write_start;
  meta_blk = b.meta_blk;
  cur_meta_vpn = b.cur_meta_vpn;
  meta_start = b.meta_start;
}

abbrev set_meta : ℕ → BankState → BankState
set_meta x b = record {
  free_list = b.free_list;
  data_list = b.data_list;
  rw_log_list = b.rw_log_list;
  jn_log_list = b.jn_log_list;
  vcount = b.vcount;
  cur_vpn = b.cur_vpn;
  write_start = b.write_start;
  meta_blk = x;
  cur_meta_vpn = b.cur_meta_vpn;
  meta_start = b.meta_start;
}

-- The head of the free list is erased and given to `use_block`.
abbrev taken_block :
    Option ℕ → (use_block : ℕ → BankState → BankState) → BankState → List BlockOp → Opened
taken_block none use_block b ops = none
taken_block (some x) use_block b ops = some (use_block x b, ops ++ (erase_block x ∷ []))

abbrev open_next : (use_block : ℕ → BankState → BankState) → Opened → Opened
open_next use_block none = none
open_next use_block (some (b, ops)) = taken_block (get_free_block b.free_list) use_block b ops

abbrev open_full : ℕ → BankState → BankState
open_full x b = set_count x vc_max (del_free x b)

-- The first place of the writes of a kind.
abbrev open_writes : WriteType → ℕ → BankState → BankState
open_writes t x b = set_cursor t (pages_per_blk * x) (set_count x 0 (move_block t x b))

-- The loop over the blocks of the map.
abbrev open_maps : ℕ → Opened → Opened
open_maps zero r = r
open_maps (suc n) r = open_maps n (open_next open_full r)

unfoldable pub open_bank : Opened
open_bank = open_next (open_writes shrd_jn) (
    open_next (open_writes shrd_rw) (
      open_next (open_writes shrd_sw) (
        open_next open_full (
          open_next (λ x b. set_meta x (open_full x b))
            (open_maps map_entry_blk_per_bank (some (init_bank, [])))))))

init_free-below : (n x : ℕ) → n ≤ x → has x (init_free n) ≡ false
unfolding init_free
init_free-below zero x h = refl
init_free-below (suc n) x h = ground (arith, init_free-below n x (omega arith))

init_free-IsDistinct : (n : ℕ) → IsDistinct (init_free n)
unfolding init_free
init_free-IsDistinct zero = tt
init_free-IsDistinct (suc n) = (init_free-below n n (omega arith), init_free-IsDistinct n)

has-init_free : (n x : ℕ) → has x (init_free n) ≡ true → x < n
unfolding init_free
has-init_free zero x h = absurd (ground arith)
has-init_free (suc n) x h = ground (arith, has-init_free n x)

abbrev bank_of : Opened → BankState
bank_of none = init_bank
bank_of (some r) = r.0

abbrev pub ops_of : Opened → List BlockOp
ops_of none = []
ops_of (some r) = r.1

abbrev pub opened : BankState
opened = bank_of open_bank

opened-free : opened.free_list ≡ init_free 1975
unfolding open_bank init_free
opened-free = refl

opened-vcount : (x : ℕ) → x < 1975 → opened.vcount x ≡ 0
unfolding open_bank init_free
opened-vcount x h = ground arith

opened-blocks : (opened.meta_blk ≡ 1979) × (opened.cur_vpn shrd_sw ≡ 1977 * 128)
unfolding open_bank init_free
opened-blocks = (refl, refl)

-- What the start leaves in a NAND: the blocks that it erases are empty.
pub record OpenedNand (nand : Nand) : Type 0 where
  pub after : Nand
  pub runs : run_ops (ops_of open_bank) nand ≡ some after
  pub meta : after 1979 ≡ 0
  pub sw : after 1977 ≡ 0
  pub rw_block : after 1976 ≡ 0
  pub jn : after 1975 ≡ 0

pub opened-Nand : (nand : Nand) → OpenedNand nand
unfolding open_bank init_free run_ops
opened-Nand nand = record {
  after = elim (run_ops (ops_of open_bank) nand) [ none ↦ nand | some a ↦ a ];
  runs = refl;
  meta = refl;
  sw = refl;
  rw_block = refl;
  jn = refl;
}

not_free : (x : ℕ) → 1975 ≤ x → has x opened.free_list ≡ false
not_free x h = ap (has x) opened-free ∙ init_free-below 1975 x h

free-below : (x : ℕ) → has x opened.free_list ≡ true → x < 1975
free-below x h = has-init_free 1975 x (sym (ap (has x) opened-free) ∙ h)

opened-done : open_bank ≡ some (opened, ops_of open_bank)
unfolding open_bank init_free
opened-done = refl

opened-cursor :
    (nand : Nand) (k : OpenedNand nand) (t : WriteType)
    → CursorOk opened k.after (opened.cur_vpn t) (opened.write_start t)
unfolding open_bank init_free
opened-cursor nand k shrd_sw = record {
  taken = (not_free 1977 (omega arith), refl);
  pages = k.sw;
  unstarted = λ e. refl;
}
opened-cursor nand k shrd_rw = record {
  taken = (not_free 1976 (omega arith), refl);
  pages = k.rw_block;
  unstarted = λ e. refl;
}
opened-cursor nand k shrd_jn = record {
  taken = (not_free 1975 (omega arith), refl);
  pages = k.jn;
  unstarted = λ e. refl;
}

opened-apart :
    (t u : WriteType) → same_type t u ≡ false → (block_of opened t == block_of opened u) ≡ false
unfolding open_bank init_free
opened-apart shrd_sw shrd_sw ne = absurd (ground arith)
opened-apart shrd_rw shrd_rw ne = absurd (ground arith)
opened-apart shrd_jn shrd_jn ne = absurd (ground arith)
opened-apart shrd_sw shrd_rw ne = refl
opened-apart shrd_sw shrd_jn ne = refl
opened-apart shrd_rw shrd_sw ne = refl
opened-apart shrd_rw shrd_jn ne = refl
opened-apart shrd_jn shrd_sw ne = refl
opened-apart shrd_jn shrd_rw ne = refl

opened-MetaOk : (nand : Nand) (k : OpenedNand nand) → MetaOk opened k.after
unfolding open_bank init_free
opened-MetaOk nand k = record {
  distinct = subst IsDistinct (sym opened-free) (init_free-IsDistinct 1975);
  counted = λ x h. ground (arith, opened-vcount x (free-below x h));
  blank = λ x h v. absurd (ground (arith, opened-vcount x (free-below x h)));
  apart = not_free 1979 (omega arith);
  place = omega arith;
  written = k.meta;
}

pub opened-BankOk : (nand : Nand) (k : OpenedNand nand) → BankOk opened k.after
opened-BankOk nand k = record {
  meta = opened-MetaOk nand k;
  cursor = opened-cursor nand k;
  apart = opened-apart;
}

-- The start gives a bank whatever its NAND holds: the erases that it issues run, and the bank is in
-- order with the NAND that they leave.
pub open_bank-BankOk :
    (nand : Nand)
    → (b : BankState) × (ops : List BlockOp) × (after : Nand) × (open_bank ≡ some (b, ops))
      × (run_ops ops nand ≡ some after)
      × BankOk b after
open_bank-BankOk nand =
    let k = opened-Nand nand in
    (opened, ops_of open_bank, k.after, opened-done, k.runs, opened-BankOk nand k)
