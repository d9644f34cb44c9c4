-- ===== src/Atl/WritePage/Old.antt =====
-- The old place of a page in write_page of ATLWrapper.cpp: the overwrite of a page in a write buffer,
-- and the read of the rest of a page in NAND that is written in part. `none` is RSP_ASSERT or the use
-- of a null pointer.
use shrd_simulator.Base.{
  ℕ, ◌-◌, ◌*◌, ◌/◌, ◌%◌, ◌^◌, Bool, Option, none, some, ◌==◌, ltb, leb, if◌then◌else◌, not, ◌&&◌,
  ◌||◌,
}
use Prim.Native.Nat.{bit_and, bit_or}
use shrd_simulator.Config.{
  u32, pages_per_bank, lpage_per_ppage, rw_log_start_in_page, jn_log_start_in_page,
  twrite_cmd_in_page,
}
use shrd_simulator.Atl.Cache.State.{set_at, vc_max, num_pvpn}
use shrd_simulator.Atl.Vpn.{
  WriteType, shrd_sw, shrd_rw, shrd_jn, get_block, get_page_offset, get_plane, get_channel_from_vpn,
  get_bank_from_vpn, generate_vpn, is_in_write_buffer, buffer_place,
}
use shrd_simulator.Atl.Buffer.{WriteBuf, PageWrite, Memory, copy_into, is_high, sectors_per_lpn}
use shrd_simulator.Atl.Buffer.Overwrite.{low_bits, first_sector}
use shrd_simulator.Atl.Ftl.{Ftl, buf_number, code_buf}

abbrev pub type_number : WriteType → ℕ
type_number shrd_sw = 0
type_number shrd_rw = 1
type_number shrd_jn = 2

-- The area of a kind of writes.
abbrev pub in_area : WriteType → (lpn : ℕ) → Bool
in_area shrd_sw lpn = ltb lpn jn_log_start_in_page
in_area shrd_rw lpn = ltb lpn twrite_cmd_in_page && leb rw_log_start_in_page lpn
in_area shrd_jn lpn = ltb lpn rw_log_start_in_page && leb jn_log_start_in_page lpn

-- The assertions at the start.
abbrev pub can_write : WriteType → (lpn old : ℕ) → Bool
can_write ty lpn old =
    ltb lpn twrite_cmd_in_page
    && in_area ty lpn
    && (ltb old num_pvpn || old == vc_max || is_in_write_buffer old)

abbrev pub set_buf : (k : ℕ) → WriteBuf → Memory → Ftl → Ftl
set_buf k b memory s = record {
  map_of = s.map_of;
  memory = memory;
  core = s.core;
  pages = s.pages;
  bufs = set_at s.bufs k b;
  valid = s.valid;
}

-- The page is in a write buffer: its sectors there are overwritten, and the bits of the sectors are
-- set in the buffer of the kind of this write.
abbrev pub more_sectors : (plane bits : ℕ) → WriteBuf → WriteBuf
more_sectors plane bits b = record {
  index = b.index;
  bits = b.bits;
  addr = b.addr;
  sectors = set_at b.sectors plane (bit_or (b.sectors plane) bits);
  req_lpn = b.req_lpn;
  remap_lpn = b.remap_lpn;
}

abbrev pub modified_at : WriteType → PageWrite → (old : ℕ) → Ftl → Option ℕ → Option Ftl
modified_at ty r old s none = none
modified_at ty r old s (some dst) =
    let p = buffer_place old in
    let k = buf_number p.channel p.bank (type_number ty) in
    let first = p.buf_offset * sectors_per_lpn in
    some (
      set_buf k (more_sectors p.plane (low_bits r * 2 ^ first) (s.bufs k))
        (set_at s.memory dst
          (copy_into (low_bits r) (s.memory dst) first (s.memory r.buffer) (first_sector r)))
        s)

unfoldable pub modify_buffered : WriteType → PageWrite → (old : ℕ) → Ftl → Option Ftl
modify_buffered ty r old s =
    modified_at ty r old s ((s.bufs (code_buf old)).addr (buffer_place old).plane)

-- The read of a page that is written in part: RSP_read_op, whose data goes to the host's buffer or
-- half a page before it.
pub record ModifyRead : Type 0 where
  pub to_half_before : Bool
  pub buffer : ℕ
  pub channel : ℕ
  pub bank : ℕ
  pub block : ℕ
  pub page : ℕ
  pub sectors : ℕ
  pub vpn : ℕ
  pub lpn : ℕ

abbrev pub is_whole : (bitmap : ℕ) → Bool
is_whole bitmap = bitmap == 0xff || bitmap == 0xff00

-- ~SectorBitmap on 16 bits.
abbrev inverted : ℕ → ℕ
inverted bitmap = 2 ^ 16 - 1 - bitmap % 2 ^ 16

abbrev pub missing_sectors : PageWrite → (old : ℕ) → ℕ
missing_sectors r old =
    let high_page = not (old % lpage_per_ppage == 0) in
    if is_high r
    then if high_page
      then bit_and (inverted r.bitmap) 0xff00
      else bit_and (inverted r.bitmap / 2 ^ sectors_per_lpn) 0xff
    else if high_page
    then bit_and (inverted r.bitmap * 2 ^ sectors_per_lpn) 0xff00
    else bit_and (inverted r.bitmap) 0xff

abbrev pub modify_read : PageWrite → (old : ℕ) → ModifyRead
modify_read r old =
    let in_bank_vpn = old / lpage_per_ppage % pages_per_bank in
    let channel = get_channel_from_vpn old in
    let bank = get_bank_from_vpn old in
    let block = get_block in_bank_vpn % 2 ^ 16 in
    let page = get_page_offset in_bank_vpn in
    record {
      to_half_before = not (old % lpage_per_ppage == 0);
      buffer = r.buffer;
      channel = channel % 2 ^ 8;
      bank = bank % 2 ^ 8;
      block = block;
      page = page % 2 ^ 8;
      sectors = missing_sectors r old;
      vpn =
          generate_vpn channel bank block (get_plane in_bank_vpn) page (old % lpage_per_ppage)
          % u32;
      lpn = r.lpn;
    }

-- The request has the whole half page then.
abbrev pub whole_half : PageWrite → PageWrite
whole_half r = record {
  lpn = r.lpn;
  o_lpn = r.o_lpn;
  bitmap = if is_high r then 0xff00 else 0xff;
  buffer = r.buffer;
}
