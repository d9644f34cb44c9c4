-- ===== src/Atl/WritePage/Dispatch.antt =====
-- RSP_WritePage of ATLWrapper.cpp: the two half pages of a host's buffer, each a page of the data or of
-- a log, a header of a twrite or a header of a remap.
--
-- `collects` and `fails` are as in write_page; `collects` is also the incremental garbage collection,
-- which runs after a half where its bank has at most GC_THRESHOLD free blocks.
pub mod Stock
pub mod Halves
pub mod Whole
mod Tests
use shrd_simulator.Base.{
  ℕ, ◌+◌, ◌-◌, ◌*◌, ◌/◌, ◌%◌, Bool, true, false, Option, none, some, List, [], ◌∷◌, ◌++◌, ◌==◌, ltb,
  leb, if◌then◌else◌, not, ◌&&◌, length,
}
use Prim.Native.Nat.{bit_and}
use shrd_simulator.Config.{
  u32, invalid_lpn, num_perbank_queue, rw_log_start_in_page, jn_log_start_in_page,
  twrite_cmd_in_page, remap_cmd_in_page, confirm_read_cmd_in_page,
}
use shrd_simulator.Atl.Vpn.{WriteType, shrd_sw, shrd_rw, shrd_jn}
use shrd_simulator.Atl.Buffer.{PageWrite, Memory}
use shrd_simulator.Atl.Headers.{
  Headers, TwriteEntry, covers, find_twrite_o_lpn, twrite_header_handler,
}
use shrd_simulator.Atl.Ftl.{Ftl}
use shrd_simulator.Atl.Remap.{RemapEntry, Remaps, remap_handler}
use shrd_simulator.Atl.WritePage.{Issued, Outcome, done, write_page}
use shrd_simulator.Atl.WritePage.Old.{ModifyRead}

-- What a half of the host's buffer is as a header of a twrite and as one of a remap.
pub record Half : Type 0 where
  pub addr_start : ℕ
  pub io_count : ℕ
  pub o_addr : ℕ → ℕ
  pub remap : RemapEntry

pub record PageRequest : Type 0 where
  pub lpn : ℕ → ℕ
  pub bitmap : ℕ
  pub buffer : ℕ
  pub half : ℕ → Half

-- `unused` are the halves that leave the host's buffer unused (buff_cnt).
pub data Handling : Type 0 where
  handled : (unused : ℕ) → Remaps → List Issued → Handling
  collects : Handling
  fails : Handling

-- The two pages are not of the log of random writes and of another area.
abbrev pub same_area : (lpn0 lpn1 : ℕ) → Bool
same_area lpn0 lpn1 =
    if leb rw_log_start_in_page lpn0 && ltb lpn1 rw_log_start_in_page
    then false
    else not
        (leb rw_log_start_in_page lpn1 && ltb lpn0 rw_log_start_in_page && ltb lpn1 invalid_lpn)

abbrev pub set_headers : Headers → Remaps → Remaps
set_headers h r = record {
  headers = h;
  free_remaps = r.free_remaps;
  rw_remaps = r.rw_remaps;
  jn_remaps = r.jn_remaps;
  ftl = r.ftl;
}

abbrev pub set_ftl : Ftl → Remaps → Remaps
set_ftl s r = record {
  headers = r.headers;
  free_remaps = r.free_remaps;
  rw_remaps = r.rw_remaps;
  jn_remaps = r.jn_remaps;
  ftl = s;
}

-- The twrite of a page expects a page less.
abbrev pub expects_less : TwriteEntry → TwriteEntry
expects_less e = record {
  addr_start = e.addr_start;
  io_count = e.io_count;
  o_addr = e.o_addr;
  write_complete = e.write_complete;
  epoch = e.epoch;
  remained = (e.remained + u32 - 1) % u32;
}

unfoldable pub expect_less : (core lpn : ℕ) → List TwriteEntry → List TwriteEntry
expect_less core lpn [] = []
expect_less core lpn (e ∷ es) =
    if covers core lpn e then expects_less e ∷ es else e ∷ expect_less core lpn es

abbrev pub log_list : WriteType → Headers → List TwriteEntry
log_list shrd_rw h = h.rw_twrites
log_list ty h = h.jn_twrites

abbrev pub set_log_list : WriteType → List TwriteEntry → (free : ℕ) → Headers → Headers
set_log_list ty es free h = record {
  free_twrites = free;
  rw_twrites = elim ty [ shrd_rw ↦ es | _ ↦ h.rw_twrites ];
  jn_twrites = elim ty [ shrd_rw ↦ h.jn_twrites | _ ↦ es ];
  rw_epoch = h.rw_epoch;
  jn_epoch = h.jn_epoch;
}

abbrev pub found_less : (core lpn : ℕ) → WriteType → Bool → Headers → Headers
found_less core lpn ty found h =
    if found then set_log_list ty (expect_less core lpn (log_list ty h)) h.free_twrites h else h

-- The first entry that covers the page: whether it is at its end, and the list without it. `none` is
-- the null pointer.
unfoldable pub without : (core lpn : ℕ) → List TwriteEntry → Option (Bool × List TwriteEntry)
without core lpn [] = none
without core lpn (e ∷ es) =
    if covers core lpn e
    then some (e.remained == 0, es)
    else elim (without core lpn es) [ none ↦ none | some (at_end, rest) ↦ some (at_end, e ∷ rest) ]

-- A twrite that expects no more pages is free again.
abbrev pub closed :
    WriteType → Remaps → List Issued → Option (Bool × List TwriteEntry) → (unused : ℕ) → Handling
closed ty r issued none unused = fails
closed ty r issued (some (at_end, rest)) unused =
    if at_end
    then handled unused
        (set_headers (set_log_list ty rest (r.headers.free_twrites + 1) r.headers) r) issued
    else handled unused r issued

abbrev pub close_twrite :
    (core lpn : ℕ) → WriteType → Remaps → List Issued → (unused : ℕ) → Handling
close_twrite core lpn shrd_sw r issued unused = handled unused r issued
close_twrite core lpn ty r issued unused =
    closed ty r issued (without core lpn (log_list ty r.headers)) unused

abbrev pub after_write : (core lpn : ℕ) → WriteType → Remaps → (unused : ℕ) → Outcome → Handling
after_write core lpn ty r unused (done kept s issued) =
    close_twrite core lpn ty (set_ftl s r) issued (if kept then unused else unused + 1)
after_write core lpn ty r unused Outcome.collects = collects
after_write core lpn ty r unused Outcome.fails = fails

abbrev pub headed : (unused : ℕ) → Option Remaps → Handling
headed unused none = fails
headed unused (some r) = handled (unused + 1) r []

abbrev pub twrite_headed : (unused : ℕ) → Remaps → Option Headers → Handling
twrite_headed unused r none = fails
twrite_headed unused r (some h) = handled (unused + 1) (set_headers h r) []

-- The bank that the incremental garbage collection cleans: half of the banks ahead.
abbrev pub cur_gc_bank : (cur_write_bank : ℕ) → ℕ
cur_gc_bank n = (n + num_perbank_queue / 2) % num_perbank_queue

abbrev pub needs_gc : Ftl → Bool
needs_gc s = leb (length (s.core.banks (cur_gc_bank s.core.cur_write_bank)).free_list) 8

abbrev pub incremental_gc : Handling → Handling
incremental_gc (handled unused r issued) =
    if needs_gc r.ftl then collects else handled unused r issued
incremental_gc collects = collects
incremental_gc fails = fails

abbrev pub after_issued : List Issued → Handling → Handling
after_issued issued (handled unused r more) = handled unused r (issued ++ more)
after_issued issued collects = collects
after_issued issued fails = fails

-- The page of a half, with the sectors of this half.
abbrev pub page_of : PageRequest → (loop o_lpn : ℕ) → PageWrite
page_of q loop o_lpn = record {
  lpn = q.lpn loop;
  o_lpn = o_lpn;
  bitmap = bit_and q.bitmap (if loop == 0 then 0xff else 0xff00);
  buffer = q.buffer;
}

module _ (load : ModifyRead → Memory → Memory) (core : ℕ) where
  abbrev pub half_write : WriteType → PageRequest → (loop o_lpn unused : ℕ) → Remaps → Handling
  half_write ty q loop o_lpn unused r =
      after_write core (q.lpn loop) ty r unused (write_page load ty (page_of q loop o_lpn) r.ftl)

  -- A page of the journal has a twrite; one of the random writes is written without one before its
  -- missing twrite is used.
  abbrev pub log_write :
      WriteType → PageRequest → (loop unused : ℕ) → Remaps → Option (Bool × ℕ × Headers) → Handling
  log_write ty q loop unused r none = fails
  log_write shrd_rw q loop unused r (some (found, o_lpn, h)) =
      half_write shrd_rw q loop o_lpn unused
        (set_headers (found_less core (q.lpn loop) shrd_rw found h) r)
  log_write ty q loop unused r (some (found, o_lpn, h)) =
      if found
      then half_write ty q loop o_lpn unused
          (set_headers (found_less core (q.lpn loop) ty found h) r)
      else fails

  -- One round of the loop.
  unfoldable pub write_half : PageRequest → (loop unused : ℕ) → Remaps → Handling
  write_half q loop unused r =
      let lpn = q.lpn loop in
      let half = q.half loop in
      if not (ltb lpn invalid_lpn)
      then incremental_gc (handled (unused + 1) r [])
      else if ltb lpn jn_log_start_in_page
      then incremental_gc (half_write shrd_sw q loop invalid_lpn unused r)
      else if leb confirm_read_cmd_in_page lpn
      then fails
      else if leb remap_cmd_in_page lpn
      then headed unused (remap_handler core lpn half.remap r)
      else if leb twrite_cmd_in_page lpn
      then twrite_headed unused r
          (twrite_header_handler core half.addr_start half.io_count half.o_addr r.headers)
      else if leb rw_log_start_in_page lpn
      then incremental_gc (log_write shrd_rw q loop unused r (find_twrite_o_lpn core lpn r.headers))
      else incremental_gc (log_write shrd_jn q loop unused r (find_twrite_o_lpn core lpn r.headers))

  abbrev pub next_half : PageRequest → Handling → Handling
  next_half q (handled unused r issued) = after_issued issued (write_half q 1 unused r)
  next_half q collects = collects
  next_half q fails = fails

  -- RSP_WritePage returns false when no half uses the host's buffer, which is when `unused` is 2.
  unfoldable pub rsp_write_page : PageRequest → Remaps → Handling
  rsp_write_page q r =
      if same_area (q.lpn 0) (q.lpn 1) then next_half q (write_half q 0 0 r) else fails
