-- ===== src/Atl/Remap.antt =====
-- The remaps of ATLWrapper.cpp: remap_handler, do_remap and __do_remap.
--
-- A remap header has pairs of host pages: the page that a twrite wrote to the log (t) gets its home
-- (o). `core` is THIS_CORE as an unsigned number: 0 or 1 is meant, and the
-- build has 2 ^ 32 - 1. The lists of headers are lists of their entries, head first; of
-- the free ones there is only the number. `none` is RSP_ASSERT or the use of a null pointer.
pub mod Kept
pub mod Ready
pub mod Page
pub mod Moved
pub mod Share
pub mod Handler
pub mod Waits
mod Tests
use shrd_simulator.Base.{
  ℕ, zero, suc, ◌+◌, ◌-◌, ◌/◌, ◌%◌, ◌^◌, Bool, true, false, Option, none, some, List, [], ◌∷◌, ◌++◌,
  ◌==◌, ltb, leb, if◌then◌else◌, not, ◌||◌, has,
}
use shrd_simulator.Config.{
  u32, invalid_lpn, num_ftl_core, pages_per_blk, rw_log_start_in_page, jn_log_start_in_page,
  remap_cmd_in_page,
}
use shrd_simulator.Atl.Cache.State.{set_at, vc_max}
use shrd_simulator.Atl.Vpn.{WriteType, shrd_sw, shrd_rw, shrd_jn, get_block, is_in_write_buffer}
use shrd_simulator.Atl.Write.{BankState, del_blk, insert_tail_blk}
use shrd_simulator.Atl.Write.Assign.{set_bank}
use shrd_simulator.Atl.Headers.{Headers, TwriteEntry}
use shrd_simulator.Atl.Ftl.{
  ◌>>=◌, Ftl, PageBank, nand_bank, nand_block, code_bank, name_slot, set_pages, set_core, get_vpn,
  set_vpn, get_vcount, leave_nand,
}

-- A block of a log whose pages have all found their homes becomes a block of data, unless it is still
-- written.
abbrev pub is_closed : WriteType → (block : ℕ) → BankState → Bool
is_closed ty block b =
    not (get_block (b.cur_vpn ty) == block) || b.cur_vpn ty % pages_per_blk == pages_per_blk - 1

abbrev pub log_to_data : WriteType → (block : ℕ) → BankState → BankState
log_to_data ty block b = record {
  free_list = b.free_list;
  data_list = insert_tail_blk block b.data_list;
  rw_log_list = elim ty [ shrd_rw ↦ del_blk block b.rw_log_list | _ ↦ b.rw_log_list ];
  jn_log_list = elim ty [ shrd_jn ↦ del_blk block b.jn_log_list | _ ↦ b.jn_log_list ];
  vcount = b.vcount;
  cur_vpn = b.cur_vpn;
  write_start = b.write_start;
  meta_blk = b.meta_blk;
  cur_meta_vpn = b.cur_meta_vpn;
  meta_start = b.meta_start;
}

abbrev pub log_closed : WriteType → (n block : ℕ) → Ftl → Ftl
log_closed ty n block s =
    let b = s.core.banks n in
    if is_closed ty block b then set_core (set_bank n (log_to_data ty block b) s.core) s else s

abbrev pub log_of : WriteType → BankState → List ℕ
log_of shrd_rw b = b.rw_log_list
log_of ty b = b.jn_log_list

-- del_blk_from_list needs the block in the list: it fails on an empty list, and a block of another list
-- has no place in this one.
abbrev pub close_log : WriteType → (n block : ℕ) → Ftl → Option Ftl
close_log ty n block s =
    let b = s.core.banks n in
    if not (is_closed ty block b) || has block (log_of ty b)
    then some (log_closed ty n block s)
    else none

abbrev pub log_done : WriteType → (n block : ℕ) → Ftl → Option Ftl
log_done shrd_sw n block s = none
log_done ty n block s = close_log ty n block s

abbrev pub set_remained : (block count : ℕ) → PageBank → PageBank
set_remained block count p = record {
  remained = set_at p.remained block count;
  inbuff = p.inbuff;
  gc = p.gc;
}

-- The remapped page is in NAND: its block waits for one remap less.
abbrev pub remap_in_nand : WriteType → (vpn : ℕ) → Ftl → Option Ftl
remap_in_nand ty vpn s =
    let n = nand_bank vpn in
    let block = nand_block vpn in
    let left = ((s.pages n).remained block + u32 - 1) % u32 in
    let t = set_pages n (set_remained block left (s.pages n)) s in
    if left == 0 then log_done ty n block t else some t

-- The remapped page is in a write buffer: its slot gets the number of its home.
abbrev pub remap_in_buffer : (vpn o : ℕ) → Ftl → Ftl
remap_in_buffer vpn o s =
    let n = code_bank vpn in
    let p = s.pages n in
    name_slot vpn o
      (set_pages n (record { remained = p.remained; inbuff = (p.inbuff + 1) % u32; gc = p.gc }) s)

abbrev pub leave_log : WriteType → (vpn o : ℕ) → Ftl → Option Ftl
leave_log ty vpn o s =
    if is_in_write_buffer vpn then some (remap_in_buffer vpn o s) else remap_in_nand ty vpn s

-- What the home held before is given up.
abbrev pub leave_home : (old o : ℕ) → Ftl → Option Ftl
leave_home old o s =
    if old == vc_max
    then some s
    else if is_in_write_buffer old
    then some (name_slot old invalid_lpn s)
    else (get_vcount (nand_bank old) (nand_block old) s >>= λ count.
        if count == 0 || count == vc_max then none else leave_nand old o s)

-- The remap from the place `vpn` of the log, which needs to exist, to the home that was at `old`.
abbrev pub remap_from : WriteType → (vpn old o : ℕ) → Ftl → Option Ftl
remap_from ty vpn old o s =
    if vpn == vc_max
    then none
    else (leave_log ty vpn o s >>= λ s'. leave_home old o s' >>= λ s''. set_vpn o vpn s'')

-- The remap of the core's page `t` to its page `o`.
unfoldable pub remap_page : WriteType → (t o : ℕ) → Ftl → Option Ftl
remap_page ty t o s = get_vpn t s >>= λ vpn.
    get_vpn o s >>= λ old. set_vpn t vc_max s >>= λ begun. remap_from ty vpn old o begun

abbrev pub max_remap_entry : ℕ
max_remap_entry = 511

-- REMAP_HDR_ENTRY
pub record RemapEntry : Type 0 where
  pub remap_count : ℕ
  pub t_addr : ℕ → ℕ
  pub o_addr : ℕ → ℕ
  pub epoch : ℕ
  pub remap_offset : ℕ

-- Whether the pair `i` of a header belongs to the core and has a home.
abbrev pub is_active : (core : ℕ) → RemapEntry → (i : ℕ) → Bool
is_active core e i =
    if not (e.t_addr i % num_ftl_core == core) then false else not (e.o_addr i == vc_max)

abbrev pub remap_pair : (core : ℕ) → WriteType → RemapEntry → (i : ℕ) → Ftl → Option Ftl
remap_pair core ty e i s =
    if is_active core e i
    then remap_page ty (e.t_addr i / num_ftl_core) (e.o_addr i / num_ftl_core) s
    else some s

-- The loop over the pairs of a header, with `n` left.
unfoldable pub remap_loop : (n core : ℕ) → WriteType → RemapEntry → Ftl → Option Ftl
remap_loop zero core ty e s = some s
remap_loop (suc n) core ty e s = elim (remap_pair core ty e (e.remap_count - suc n) s) [
  | none ↦ none
  | some s' ↦ remap_loop n core ty e s'
]

-- The headers of twrites and remaps, with the pages.
pub record Remaps : Type 0 where
  pub headers : Headers
  pub free_remaps : ℕ
  pub rw_remaps : List RemapEntry
  pub jn_remaps : List RemapEntry
  pub ftl : Ftl

abbrev pub remap_list : WriteType → Remaps → List RemapEntry
remap_list shrd_rw r = r.rw_remaps
remap_list ty r = r.jn_remaps

abbrev pub twrite_list : WriteType → Remaps → List TwriteEntry
twrite_list shrd_rw r = r.headers.rw_twrites
twrite_list ty r = r.headers.jn_twrites

abbrev pub epoch_number : WriteType → Remaps → ℕ
epoch_number shrd_rw r = r.headers.rw_epoch
epoch_number ty r = r.headers.jn_epoch

-- The header at the head has been remapped, and is free.
abbrev pub drop_head : WriteType → List RemapEntry → Ftl → Remaps → Remaps
drop_head ty es s r = record {
  headers = r.headers;
  free_remaps = r.free_remaps + 1;
  rw_remaps = elim ty [ shrd_rw ↦ es | _ ↦ r.rw_remaps ];
  jn_remaps = elim ty [ shrd_rw ↦ r.jn_remaps | _ ↦ es ];
  ftl = s;
}

-- __do_remap
abbrev pub remap_head : (core : ℕ) → WriteType → List RemapEntry → Remaps → Option Remaps
remap_head core ty [] r = none
remap_head core ty (e ∷ es) r =
    remap_loop e.remap_count core ty e r.ftl >>= λ s. some (drop_head ty es s r)

unfoldable pub do_one_remap : (core : ℕ) → WriteType → Remaps → Option Remaps
do_one_remap core ty r = remap_head core ty (remap_list ty r) r

abbrev pub max_epoch_number : ℕ
max_epoch_number = 65536

-- How many epochs before `now` an epoch is.
abbrev pub epochs_since : (now epoch : ℕ) → ℕ
epochs_since now epoch = if ltb now epoch then now + max_epoch_number - epoch else now - epoch

abbrev pub remap_age : (now : ℕ) → List RemapEntry → ℕ
remap_age now [] = 0
remap_age now (e ∷ es) = epochs_since now e.epoch

abbrev pub twrite_age : (now : ℕ) → List TwriteEntry → ℕ
twrite_age now [] = 0
twrite_age now (e ∷ es) = epochs_since now e.epoch

unfoldable pub repeat_remap : (n core : ℕ) → WriteType → Remaps → Option Remaps
repeat_remap zero core ty r = some r
repeat_remap (suc n) core ty r = elim (do_one_remap core ty r) [
  | none ↦ none
  | some r' ↦ repeat_remap n core ty r'
]

abbrev pub is_empty : List RemapEntry → Bool
is_empty [] = true
is_empty (e ∷ es) = false

unfoldable pub do_remap : (core : ℕ) → WriteType → Remaps → Option Remaps
do_remap core ty r =
    let now = epoch_number ty r in
    let remap_size = remap_age now (remap_list ty r) in
    let twrite_size = twrite_age now (twrite_list ty r) in
    if is_empty (remap_list ty r)
    then some r
    else if ltb remap_size twrite_size
    then some r
    else repeat_remap (remap_size - twrite_size) core ty r

abbrev pub next_epoch : ℕ → ℕ
next_epoch n = (n + 1) % max_epoch_number

abbrev pub stamped : (epoch lpn : ℕ) → RemapEntry → RemapEntry
stamped epoch lpn e = record {
  remap_count = e.remap_count;
  t_addr = e.t_addr;
  o_addr = e.o_addr;
  epoch = epoch;
  remap_offset = (lpn - remap_cmd_in_page) % 2 ^ 8;
}

abbrev pub take_rw : (lpn : ℕ) → RemapEntry → Remaps → Remaps
take_rw lpn e r = record {
  headers = record {
    free_twrites = r.headers.free_twrites;
    rw_twrites = r.headers.rw_twrites;
    jn_twrites = r.headers.jn_twrites;
    rw_epoch = next_epoch r.headers.rw_epoch;
    jn_epoch = r.headers.jn_epoch;
  };
  free_remaps = r.free_remaps - 1;
  rw_remaps = r.rw_remaps ++ stamped r.headers.rw_epoch lpn e ∷ [];
  jn_remaps = r.jn_remaps;
  ftl = r.ftl;
}

abbrev pub take_jn : (lpn : ℕ) → RemapEntry → Remaps → Remaps
take_jn lpn e r = record {
  headers = record {
    free_twrites = r.headers.free_twrites;
    rw_twrites = r.headers.rw_twrites;
    jn_twrites = r.headers.jn_twrites;
    rw_epoch = r.headers.rw_epoch;
    jn_epoch = next_epoch r.headers.jn_epoch;
  };
  free_remaps = r.free_remaps - 1;
  rw_remaps = r.rw_remaps;
  jn_remaps = r.jn_remaps ++ stamped r.headers.jn_epoch lpn e ∷ [];
  ftl = r.ftl;
}

-- `e` is the header in the host's buffer, for a write to the page `lpn`.
unfoldable pub remap_handler : (core lpn : ℕ) → RemapEntry → Remaps → Option Remaps
remap_handler core lpn e r =
    if r.free_remaps == 0
    then none
    else if leb rw_log_start_in_page (e.t_addr 0 / num_ftl_core)
    then do_one_remap core shrd_rw (take_rw lpn e r)
    else if leb jn_log_start_in_page (e.t_addr 0 / num_ftl_core)
    then do_remap core shrd_jn (take_jn lpn e r)
    else if e.remap_count == 0
    then some r
    else none
