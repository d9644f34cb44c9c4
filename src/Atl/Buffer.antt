-- ===== src/Atl/Buffer.antt =====
-- The write buffer of a bank for one kind of writes, in write_page of ATLWrapper.cpp: four pages of
-- the host's buffers with eight half pages, called slots. Slot `plane * 2 + offset` is the entry
-- [plane][offset] of the source.
--
-- The bits of writebuf_bitmap are a function of the slot, the page map is the flat map that the cache
-- of the map implements (Atl.Cache), and the memory gives for an address the 512-byte sectors behind
-- it. `none` is RSP_ASSERT or the use of a null pointer.
pub mod Insert
pub mod Filled
pub mod Program
pub mod Overwrite
mod Tests
use shrd_simulator.Base.{
  ℕ, zero, suc, ◌+◌, ◌-◌, ◌*◌, ◌/◌, ◌%◌, ◌^◌, Bool, true, false, Option, none, some, ◌==◌, ltb, leb,
  if◌then◌else◌, not, ◌&&◌, ◌||◌,
}
use shrd_simulator.Config.{planes_per_bank, lpage_per_ppage, pages_per_blk, invalid_lpn}
use shrd_simulator.Atl.Cache.State.{set_at}
use shrd_simulator.Atl.Vpn.{buffer_vpn, plane_ppn, get_block, get_page_offset}
use shrd_simulator.Atl.ReadPage.{Sectors, buffer_copy}
use Prim.Native.Nat.{bit_or, bit_and}

abbrev pub num_slots : ℕ
num_slots = planes_per_bank * lpage_per_ppage

abbrev pub sectors_per_lpn : ℕ
sectors_per_lpn = 8

pub record WriteBuf : Type 0 where
  pub index : ℕ
  pub bits : ℕ → Bool
  pub addr : ℕ → Option ℕ
  pub sectors : ℕ → ℕ
  pub req_lpn : ℕ → ℕ
  pub remap_lpn : ℕ → ℕ

abbrev pub Memory : Type 0
Memory = ℕ → Sectors

-- The buffer with the page map and the memory.
pub record Buffered : Type 0 where
  pub buf : WriteBuf
  pub map_of : ℕ → ℕ
  pub memory : Memory

-- The bank and the kind of the buffer.
pub record Owner : Type 0 where
  pub channel : ℕ
  pub bank : ℕ
  pub write_type : ℕ

pub record PageWrite : Type 0 where
  pub lpn : ℕ
  pub o_lpn : ℕ
  pub bitmap : ℕ
  pub buffer : ℕ

-- SectorBitmap >> SECTORS_PER_LPN, and whether it is not 0: the request has the second half page.
abbrev pub high_bits : PageWrite → ℕ
high_bits r = r.bitmap / 2 ^ sectors_per_lpn

abbrev pub is_high : PageWrite → Bool
is_high r = not (high_bits r == 0)

abbrev pub slot_code : Owner → ℕ → ℕ
slot_code o slot = buffer_vpn o.channel o.bank o.write_type slot

-- The request stands in the slot, and the map says so.
abbrev pub enter_slot : Owner → PageWrite → (slot : ℕ) → Buffered → Buffered
enter_slot o r slot s = record {
  buf = record {
    index = s.buf.index;
    bits = set_at s.buf.bits slot true;
    addr = s.buf.addr;
    sectors = s.buf.sectors;
    req_lpn = set_at s.buf.req_lpn slot r.lpn;
    remap_lpn = set_at s.buf.remap_lpn slot r.o_lpn;
  };
  map_of = set_at s.map_of r.lpn (slot_code o slot);
  memory = s.memory;
}

-- RSP_BufferCopy to a place behind `dst` from a place behind `src`.
abbrev pub copy_into :
    (bitmap : ℕ) → (dst : Sectors) → (dst_sector : ℕ) → (src : Sectors) → (src_sector : ℕ) → Sectors
copy_into bitmap dst dst_sector src src_sector i =
    let copied =
      buffer_copy bitmap (λ (j : ℕ). dst (j + dst_sector)) (λ (j : ℕ). src (j + src_sector)) in
    if leb dst_sector i then copied (i - dst_sector) else dst i

-- The same between two places in the memory.
abbrev copy_at : (bitmap dst dst_sector src src_sector : ℕ) → Memory → Memory
copy_at bitmap dst dst_sector src src_sector memory =
    set_at memory dst (copy_into bitmap (memory dst) dst_sector (memory src) src_sector)

abbrev set_sectors : (plane bitmap : ℕ) → Buffered → Buffered
set_sectors plane bitmap s = record {
  buf = record {
    index = s.buf.index;
    bits = s.buf.bits;
    addr = s.buf.addr;
    sectors = set_at s.buf.sectors plane bitmap;
    req_lpn = s.buf.req_lpn;
    remap_lpn = s.buf.remap_lpn;
  };
  map_of = s.map_of;
  memory = s.memory;
}

-- The request's buffer becomes the page `index` of the write buffer.
abbrev new_page : PageWrite → Buffered → Buffered
new_page r s = record {
  buf = record {
    index = s.buf.index + 1;
    bits = s.buf.bits;
    addr = set_at s.buf.addr s.buf.index (some r.buffer);
    sectors = set_at s.buf.sectors s.buf.index r.bitmap;
    req_lpn = s.buf.req_lpn;
    remap_lpn = s.buf.remap_lpn;
  };
  map_of = s.map_of;
  memory = s.memory;
}

abbrev pub new_slot : PageWrite → WriteBuf → ℕ
new_slot r b = b.index * lpage_per_ppage + (if is_high r then 1 else 0)

abbrev pub insert_new : Owner → PageWrite → Buffered → Buffered
insert_new o r s = enter_slot o r (new_slot r s.buf) (new_page r s)

-- The second half of the page that came last.
abbrev pub tail_slot : WriteBuf → ℕ
tail_slot b = (b.index - 1) * lpage_per_ppage + 1

abbrev pub insert_tail : Owner → PageWrite → Buffered → Buffered
insert_tail o r s =
    let plane = s.buf.index - 1 in
    set_sectors plane (bit_or (s.buf.sectors plane) r.bitmap) (enter_slot o r (tail_slot s.buf) s)

abbrev set_memory : Memory → Buffered → Buffered
set_memory memory s = record { buf = s.buf; map_of = s.map_of; memory = memory }

-- The copy into the half page `slot` at the address `dst`.
abbrev fill_memory : PageWrite → (slot dst : ℕ) → Memory → Memory
fill_memory r slot dst memory =
    if not (slot % lpage_per_ppage == 0)
    then if is_high r
      then copy_at r.bitmap dst 0 r.buffer 0 memory
      else copy_at r.bitmap dst sectors_per_lpn r.buffer 0 memory
    else if is_high r
    then copy_at (high_bits r) dst 0 r.buffer sectors_per_lpn memory
    else copy_at r.bitmap dst 0 r.buffer 0 memory

abbrev fill_sectors : PageWrite → (slot : ℕ) → ℕ
fill_sectors r slot =
    if not (slot % lpage_per_ppage == 0)
    then if is_high r then r.bitmap else bit_and (r.bitmap * 2 ^ sectors_per_lpn) 0xff00
    else if is_high r
    then bit_and (high_bits r) 0xff
    else r.bitmap

-- The half page `slot` of the page at the address `dst` gets the request.
abbrev pub filled : Owner → PageWrite → (slot : ℕ) → Buffered → (dst : ℕ) → Buffered
filled o r slot s dst =
    let plane = slot / lpage_per_ppage in
    enter_slot o r slot (
      set_sectors plane (bit_or (s.buf.sectors plane) (fill_sectors r slot))
        (set_memory (fill_memory r slot dst s.memory) s))

abbrev pub fill : Owner → PageWrite → (slot : ℕ) → Buffered → Option ℕ → Option (Bool × Buffered)
fill o r slot s none = none
fill o r slot s (some dst) = some (false, filled o r slot s dst)

-- The loop over the slots, with `n` left: the first that is not used.
pub first_hole : ℕ → (ℕ → Bool) → Option ℕ
first_hole zero bits = none
first_hole (suc n) bits =
    let rest = first_hole n bits in
    if bits (num_slots - suc n) then rest else some (num_slots - suc n)

abbrev pub insert_hole : Owner → PageWrite → Buffered → Option ℕ → Option (Bool × Buffered)
insert_hole o r s none = some (true, s)
insert_hole o r s (some slot) = fill o r slot s (s.buf.addr (slot / lpage_per_ppage))

abbrev pub none_used : ℕ → (ℕ → Bool) → Bool
none_used zero bits = true
none_used (suc n) bits = not (bits n) && none_used n bits

abbrev same_buffer : PageWrite → Option ℕ → Bool
same_buffer r none = false
same_buffer r (some buffer) = r.buffer == buffer

abbrev pub is_tail : PageWrite → WriteBuf → Bool
is_tail r b = is_high r && same_buffer r (b.addr (b.index - 1))

-- The insertion, with what write_page returns: false when the host's buffer is not kept.
unfoldable pub insert_page : Owner → PageWrite → Buffered → Option (Bool × Buffered)
insert_page o r s =
    if s.buf.index == 0
    then some (true, insert_new o r s)
    else if is_tail r s.buf
    then some (true, insert_tail o r s)
    else if ltb s.buf.index planes_per_bank
    then some (true, insert_new o r s)
    else if not (none_used num_slots s.buf.bits)
    then insert_hole o r s (first_hole num_slots s.buf.bits)
    else none

-- writebuf_bitmap == 0xFF
abbrev pub all_used : ℕ → (ℕ → Bool) → Bool
all_used zero bits = true
all_used (suc n) bits = bits n && all_used n bits

-- The loop over the slots of a full buffer, with `n` left: the map gets the place of each in NAND, and
-- the pages are counted. The valid bits that the loop also sets are not kept here.
pub program_loop : (n : ℕ) → Owner → (new_vpn : ℕ) → WriteBuf → (ℕ → ℕ) → (vcount : ℕ) → (ℕ → ℕ) × ℕ
program_loop zero o new_vpn b map_of vcount = (map_of, vcount)
program_loop (suc n) o new_vpn b map_of vcount =
    let slot = num_slots - suc n in
    let ppn =
      plane_ppn o.channel o.bank new_vpn (slot / lpage_per_ppage) (slot % lpage_per_ppage) in
    let used = not (b.req_lpn slot == invalid_lpn) in
    program_loop n o new_vpn b (if used then set_at map_of (b.req_lpn slot) ppn else map_of)
      (if used then vcount + 1 else vcount)

-- The write buffer after its program; the numbers of the pages stay in their places.
abbrev pub reset_buf : WriteBuf → WriteBuf
reset_buf b = record {
  index = 0;
  bits = λ slot. false;
  addr = λ plane. none;
  sectors = λ plane. 0;
  req_lpn = b.req_lpn;
  remap_lpn = b.remap_lpn;
}

-- RSP_write_ops[plane] of the program. Vfl.ProgramOp is the same operation, with the contents of its
-- buffers in place of the pointers.
pub record WriteOp : Type 0 where
  pub buffer : Option ℕ
  pub spare : ℕ → ℕ
  pub sectors : ℕ
  pub channel : ℕ
  pub bank : ℕ
  pub block : ℕ
  pub page : ℕ
  pub vpn : ℕ → ℕ
  pub lpn : ℕ → ℕ

-- writebuf_lpn[plane][offset][kind], for REQ_LPN (0) and REMAP_LPN (1).
abbrev spare_word : WriteBuf → (plane offset kind : ℕ) → ℕ
spare_word b plane offset kind =
    let slot = plane * lpage_per_ppage + offset in
    if kind == 0 then b.req_lpn slot else b.remap_lpn slot

abbrev pub write_op : Owner → (new_vpn : ℕ) → WriteBuf → (plane : ℕ) → WriteOp
write_op o new_vpn b plane =
    let super_blk = new_vpn / pages_per_blk in
    let page_offset =
      super_blk * planes_per_bank * pages_per_blk
      + plane * pages_per_blk
      + new_vpn % pages_per_blk in
    record {
      buffer = b.addr plane;
      spare = λ i. spare_word b plane (i / 2) (i % 2);
      sectors = b.sectors plane;
      channel = o.channel % 2 ^ 8;
      bank = o.bank % 2 ^ 8;
      block = get_block page_offset % 2 ^ 16;
      page = get_page_offset page_offset % 2 ^ 8;
      vpn = plane_ppn o.channel o.bank new_vpn plane;
      lpn = λ offset. b.req_lpn (plane * lpage_per_ppage + offset);
    }

-- The program of a full buffer at `new_vpn`, with the number of pages that the block's count gets and
-- the operation that each plane issues.
pub program_full : Owner → (new_vpn : ℕ) → Buffered → Buffered × ℕ × (ℕ → WriteOp)
program_full o new_vpn s =
    let r = program_loop num_slots o new_vpn s.buf s.map_of 0 in
    (
      record { buf = reset_buf s.buf; map_of = r.0; memory = s.memory },
      r.1,
      write_op o new_vpn s.buf,
    )

-- inc_cur_write_bank
abbrev pub inc_cur_write_bank : ℕ → ℕ
inc_cur_write_bank n = if n + 1 == 8 then 0 else n + 1
