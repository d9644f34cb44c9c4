-- ===== src/Atl/WritePage/Full.antt =====
-- The program of a full write buffer in write_page of ATLWrapper.cpp: the page of the bank, the map,
-- the valid pages, and the counts of the block. `none` is RSP_ASSERT.
use shrd_simulator.Base.{
  ℕ, zero, suc, ◌+◌, ◌-◌, ◌*◌, ◌/◌, ◌%◌, Option, none, some, ◌==◌, ltb, if◌then◌else◌,
}
use shrd_simulator.Config.{
  u32, invalid_lpn, pages_per_blk, blks_per_plane, lpage_per_ppage, num_lblk,
}
use shrd_simulator.Atl.Vpn.{WriteType, shrd_sw, shrd_rw, shrd_jn, plane_ppn}
use shrd_simulator.Atl.Buffer.{
  WriteBuf, Buffered, Owner, WriteOp, num_slots, program_full, inc_cur_write_bank,
}
use shrd_simulator.Atl.Ftl.{
  ◌>>=◌, Ftl, PageBank, bank_number, buf_number, set_pages, set_core, validate_vpn, get_vcount,
  set_vcount,
}
use shrd_simulator.Atl.Remap.{close_log, set_remained}
use shrd_simulator.Atl.WritePage.Old.{set_buf}

abbrev pub owner_bank : Owner → ℕ
owner_bank o = bank_number o.channel o.bank

abbrev pub owner_buf : Owner → ℕ
owner_buf o = buf_number o.channel o.bank o.write_type

-- The write buffer of an owner with the map and the memory, and the pages with these put back.
abbrev pub buffered_of : Owner → Ftl → Buffered
buffered_of o s = record { buf = s.bufs (owner_buf o); map_of = s.map_of; memory = s.memory }

abbrev pub with_buffered : Owner → Buffered → Ftl → Ftl
with_buffered o t s = set_buf (owner_buf o) t.buf t.memory (record {
  map_of = t.map_of;
  memory = s.memory;
  core = s.core;
  pages = s.pages;
  bufs = s.bufs;
  valid = s.valid;
})

-- The loop over the slots of the buffer, with `n` left: the pages that are not invalid are valid in
-- their new places, and below the number of the pages of a core.
unfoldable pub validate_slots : (n : ℕ) → Owner → (new_vpn : ℕ) → WriteBuf → Ftl → Option Ftl
validate_slots zero o new_vpn b s = some s
validate_slots (suc n) o new_vpn b s =
    let slot = num_slots - suc n in
    let ppn =
      plane_ppn o.channel o.bank new_vpn (slot / lpage_per_ppage) (slot % lpage_per_ppage) in
    let skipped = validate_slots n o new_vpn b s in
    let taken = validate_slots n o new_vpn b (validate_vpn ppn s) in
    if b.req_lpn slot == invalid_lpn
    then skipped
    else if ltb (b.req_lpn slot) (num_lblk * pages_per_blk * lpage_per_ppage)
    then taken
    else none

abbrev pub add_count : (n block count : ℕ) → Ftl → Option Ftl
add_count n block count s = get_vcount n block s >>= λ v. set_vcount n block ((v + count) % u32) s

abbrev pub next_bank : Ftl → Ftl
next_bank s =
    set_core
      (record {
        banks = s.core.banks;
        dirty_bbp = s.core.dirty_bbp;
        cur_write_bank = inc_cur_write_bank s.core.cur_write_bank;
      })
      s

-- The block of a log waits for a remap less: when for none, it becomes a block of data if it is of the
-- random writes.
abbrev pub wait_for : WriteType → (n block left : ℕ) → Ftl → Option Ftl
wait_for shrd_sw n block left s = some s
wait_for shrd_rw n block left s =
    let t = set_pages n (set_remained block left (s.pages n)) s in
    if left == 0 then close_log shrd_rw n block t else some t
wait_for shrd_jn n block left s =
    if left == 0 then none else some (set_pages n (set_remained block left (s.pages n)) s)

-- The block of a log waits for the remaps of the eight pages, less those that came to the buffers.
abbrev pub no_inbuff : PageBank → PageBank
no_inbuff p = record { remained = p.remained; inbuff = 0; gc = p.gc }

abbrev pub add_remaps : WriteType → (n block : ℕ) → Ftl → Option Ftl
add_remaps shrd_sw n block s = some s
add_remaps ty n block s =
    let p = s.pages n in
    let left = (p.remained block + num_slots + u32 - p.inbuff) % u32 in
    wait_for ty n block left (set_pages n (no_inbuff p) s)

-- The page `new_vpn` of the bank gets the write buffer.
unfoldable pub write_full : WriteType → Owner → (new_vpn : ℕ) → Ftl → Option (Ftl × (ℕ → WriteOp))
write_full ty o new_vpn s =
    let n = owner_bank o in
    let block = new_vpn / pages_per_blk in
    let (t, vcount, ops) = program_full o new_vpn (buffered_of o s) in
    if ltb new_vpn (blks_per_plane * pages_per_blk)
    then (validate_slots num_slots o new_vpn (s.bufs (owner_buf o)) (with_buffered o t s) >>= λ s1.
        add_count n block vcount s1 >>= λ s2.
        add_remaps ty n block (next_bank s2) >>= λ s3. some (s3, ops))
    else none
