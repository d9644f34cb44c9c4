-- ===== src/Atl/Buffer/Tests.antt =====
-- The write buffers and the reads of ATLWrapper.cpp on concrete inputs.
use shrd_simulator.Base.{
  ℕ, ◌+◌, ◌-◌, ◌*◌, ◌/◌, ◌%◌, ◌<◌, ◌≡◌, refl, Bool, true, false, none, some, arith, ◌==◌,
  if◌then◌else◌,
}
use shrd_simulator.Config.{pages_per_blk, planes_per_bank}
use shrd_simulator.Atl.Cache.State.{vc_max}
use shrd_simulator.Atl.Vpn.{
  BufferPlace, PlaceInRange, NandPlace, NandInRange, Reads, buffer_place, code_of_place, vpn_of,
  is_in_write_buffer, code_of_place-back, vpn_of-Reads, plane_ppn,
}
use shrd_simulator.Atl.ReadPage.{
  Buffers, Sectors, IssuedRead, read_nand, rsp_read_page, area_of, rsp_read_page-nand,
}
use shrd_simulator.Atl.Buffer.{
  Buffered, Owner, PageWrite, insert_page, num_slots, program_full, WriteOp, slot_code,
}
use shrd_simulator.Atl.Buffer.Insert.{Shape}
use shrd_simulator.Atl.Buffer.Filled.{OwnerInRange, BufferOk, Inserted, insert_page-Inserted}
use shrd_simulator.Atl.Buffer.Program.{program_full-map}

abbrev place : BufferPlace
place = record { channel = 3; bank = 1; write_type = 2; plane = 2; buf_offset = 1 }

place-InRange : PlaceInRange place
place-InRange = record {
  channel = omega arith;
  bank = omega arith;
  write_type = omega arith;
  plane = omega arith;
  buf_offset = omega arith;
}

code_of_place-back_example :
    (buffer_place (code_of_place place) ≡ place)
    × (is_in_write_buffer (code_of_place place) ≡ true)
    × (code_of_place place < vc_max)
code_of_place-back_example = code_of_place-back place place-InRange

abbrev nand_place : NandPlace
nand_place = record { channel = 2; bank = 1; new_vpn = 1500 * 128 + 77; plane = 3; off = 1 }

nand_place-InRange : NandInRange nand_place
nand_place-InRange = record {
  channel = omega arith;
  bank = omega arith;
  new_vpn = omega arith;
  plane = omega arith;
  off = omega arith;
}

vpn_of-Reads_example : Reads (vpn_of nand_place) nand_place
vpn_of-Reads_example = vpn_of-Reads nand_place nand_place-InRange

abbrev owner : Owner
owner = record { channel = 1; bank = 0; write_type = 1 }

abbrev map_of : ℕ → ℕ
map_of l = if l == 40 then vpn_of nand_place else if l == 60 then slot_code owner 0 else vc_max

abbrev buffers : Buffers
buffers = λ c b t q i. c * 1000 + q * 100 + i

abbrev dst : Sectors
dst = λ i. 0

rsp_read_page-nand_example :
    (op : IssuedRead) × (rsp_read_page map_of 7 40 0xff00 buffers dst
      ≡ some (read_nand (area_of 40) op))
    × (op.channel ≡ 2)
    × (op.bank ≡ 1)
    × (op.block ≡ (1500 * 128 + 77) / pages_per_blk * planes_per_bank + 3)
    × (op.page ≡ (1500 * 128 + 77) % pages_per_blk)
    × (op.bitmap ≡ (if 1 == 0 then 0xff else 0xff00))
rsp_read_page-nand_example =
    rsp_read_page-nand map_of 7 40 0xff00 buffers dst nand_place nand_place-InRange (omega arith)
      refl

owner-InRange : OwnerInRange owner
owner-InRange = record { channel = omega arith; bank = omega arith; write_type = omega arith }

-- The first half of one host buffer is written.
abbrev begun : Buffered
begun = record {
  buf = record {
    index = 1;
    bits = λ k. k == 0;
    addr = λ q. if q == 0 then some 9 else none;
    sectors = λ q. if q == 0 then 0xff else 0;
    req_lpn = λ k. 60;
    remap_lpn = λ k. 61;
  };
  map_of = map_of;
  memory = λ a i. i;
}

begun-BufferOk : BufferOk owner begun
begun-BufferOk = record {
  shape = record {
    bound = omega arith;
    later = λ k p q. ground arith;
    addr = λ q p. (9, ground arith);
    half = λ q p. ground arith;
  };
  coherent = λ k p e. ground arith;
  room = refl;
}

-- Its second half.
abbrev second : PageWrite
second = record { lpn = 44; o_lpn = 45; bitmap = 0xff00; buffer = 9 }

insert_page-Inserted_example :
    (kept : Bool) × (slot : ℕ) × (t : Buffered) × (insert_page owner second begun ≡ some (kept, t))
    × Inserted owner second begun slot t
insert_page-Inserted_example =
    insert_page-Inserted owner second begun owner-InRange begun-BufferOk refl (λ e. refl)

-- A full buffer of the pages 100 to 107.
abbrev full : Buffered
full = record {
  buf = record {
    index = 4;
    bits = λ k. true;
    addr = λ q. some q;
    sectors = λ q. 0xffff;
    req_lpn = λ k. 100 + k;
    remap_lpn = λ k. 0;
  };
  map_of = λ l. slot_code owner (l - 100);
  memory = λ a i. i;
}

program_full-map_example :
    (t : Buffered) × (ops : ℕ → WriteOp) × (program_full owner 300 full ≡ (t, 8, ops))
    × ((k : ℕ) → k < num_slots → t.map_of (100 + k) ≡ plane_ppn 1 0 300 (k / 2) (k % 2))
    × ((l : ℕ) → ((k : ℕ) → k < num_slots → (l == 100 + k) ≡ false) → t.map_of l ≡ full.map_of l)
    × Shape t.buf
    × ((q off : ℕ)
        → q < 4
        → off < 2
        → (ops q).lpn off ≡ 100 + (q * 2 + off) × ((ops q).vpn off ≡ t.map_of ((ops q).lpn off)))
program_full-map_example =
    program_full-map owner 300 full owner-InRange (λ k p e. ground arith) refl (λ k p. ground arith)
