-- ===== src/Atl/WritePage.antt =====
-- write_page of ATLWrapper.cpp: a page goes to a write buffer and gives up its old place, and a full
-- write buffer is programmed.
--
-- `load` is what the read of the rest of a page puts into the host's buffer (Issue of VFLWrapper.cpp,
-- see Vfl). `collects` is the call of the garbage collection where no block is free, `fails` is
-- RSP_ASSERT or the use of a null pointer.
pub mod Old
pub mod Full
pub mod Place
pub mod Slot
pub mod Padding
pub mod Modified
pub mod Settled
pub mod Dispatch
mod Tests
use shrd_simulator.Base.{
  ℕ, ◌+◌, ◌-◌, ◌%◌, ◌/◌, Bool, true, false, Option, none, some, List, [], ◌∷◌, ◌++◌, ◌==◌, leb,
  if◌then◌else◌, not, ◌&&◌,
}
use shrd_simulator.Config.{u32, invalid_lpn}
use shrd_simulator.Atl.Cache.State.{vc_max}
use shrd_simulator.Atl.Vpn.{
  WriteType, shrd_sw, shrd_rw, shrd_jn, get_channel, get_bank, is_in_write_buffer,
}
use shrd_simulator.Atl.Write.Assign.{Core, Ops, Assigned, assigned, assign_new_write_vpn_of}
use shrd_simulator.Atl.Buffer.{
  Buffered, Owner, PageWrite, WriteOp, Memory, insert_page, all_used, num_slots,
}
use shrd_simulator.Atl.Ftl.{◌>>=◌, Ftl, nand_bank, nand_block, set_vpn, set_core, leave_nand}
use shrd_simulator.Atl.WritePage.Old.{
  ModifyRead, type_number, can_write, modify_buffered, is_whole, modify_read, whole_half,
}
use shrd_simulator.Atl.WritePage.Full.{buffered_of, with_buffered, wait_for, write_full, owner_bank}

-- What is issued to the NAND.
pub data Issued : Type 0 where
  modify_read_op : ModifyRead → Issued
  block_ops : Ops → Issued
  write_ops : (ℕ → WriteOp) → Issued

-- `kept` is what write_page returns: whether the host's buffer is in use.
pub data Outcome : Type 0 where
  done : (kept : Bool) → Ftl → List Issued → Outcome
  collects : Outcome
  fails : Outcome

-- The owner of the write buffer for a kind of writes in the bank that is written.
abbrev pub owner_of : WriteType → Ftl → Owner
owner_of ty s = record {
  channel = get_channel s.core.cur_write_bank;
  bank = get_bank s.core.cur_write_bank;
  write_type = type_number ty;
}

abbrev pub written : (kept : Bool) → List Issued → Ops → Option (Ftl × (ℕ → WriteOp)) → Outcome
written kept reads ops none = fails
written kept reads ops (some (s, writes)) =
    done kept s (reads ++ block_ops ops ∷ write_ops writes ∷ [])

abbrev pub write_assigned : WriteType → Owner → Bool → List Issued → Ftl → Assigned → Outcome
write_assigned ty o kept reads s (assigned new_vpn c ops) =
    written kept reads ops (write_full ty o new_vpn (set_core c s))
write_assigned ty o kept reads s Assigned.collects = collects
write_assigned ty o kept reads s Assigned.fails = fails

-- The buffer is programmed if it is full.
abbrev pub after_insert : WriteType → Owner → List Issued → Ftl → Option (Bool × Buffered) → Outcome
after_insert ty o reads s none = fails
after_insert ty o reads s (some (kept, t)) =
    let s' = with_buffered o t s in
    if all_used num_slots t.buf.bits
    then write_assigned ty o kept reads s' (assign_new_write_vpn_of ty (owner_bank o) s'.core)
    else done kept s' reads

-- A write of random data without a home is a padding.
abbrev pub is_padding : WriteType → PageWrite → Bool
is_padding shrd_rw r = leb invalid_lpn r.o_lpn
is_padding ty r = false

abbrev pub unkept : List Issued → Option Ftl → Outcome
unkept reads none = fails
unkept reads (some s) = done false s reads

abbrev pub to_buffer : WriteType → PageWrite → List Issued → Option Ftl → Outcome
to_buffer ty r reads none = fails
to_buffer ty r reads (some s) =
    if is_padding ty r
    then unkept reads (set_vpn r.lpn vc_max s)
    else after_insert ty (owner_of ty s) reads s
        (insert_page (owner_of ty s) r (buffered_of (owner_of ty s) s))

-- The old place in NAND is given up, and its block waits for a remap less if it is of a log.
abbrev pub one_remap_less : WriteType → (old : ℕ) → Ftl → Option Ftl
one_remap_less ty old s =
    let n = nand_bank old in
    let block = nand_block old in
    wait_for ty n block (((s.pages n).remained block + u32 - 1) % u32) s

abbrev pub give_up : WriteType → (old lpn : ℕ) → Ftl → Option Ftl
give_up ty old lpn s = leave_nand old lpn s >>= λ t. one_remap_less ty old t

abbrev with_memory : Memory → Ftl → Ftl
with_memory memory s = record {
  map_of = s.map_of;
  memory = memory;
  core = s.core;
  pages = s.pages;
  bufs = s.bufs;
  valid = s.valid;
}

abbrev pub modified : Option Ftl → Outcome
modified none = fails
modified (some s) = done false s []

module _ (load : ModifyRead → Memory → Memory) where
  -- A page in NAND: if it is written in part, the rest of it is read first.
  abbrev pub from_nand : WriteType → PageWrite → (old : ℕ) → Ftl → Outcome
  from_nand ty r old s =
      if is_whole r.bitmap
      then to_buffer ty r [] (give_up ty old r.lpn s)
      else to_buffer ty (whole_half r) (modify_read_op (modify_read r old) ∷ [])
          (give_up ty old r.lpn (with_memory (load (modify_read r old) s.memory) s))

  unfoldable pub write_page : WriteType → PageWrite → Ftl → Outcome
  write_page ty r s =
      let old = s.map_of r.lpn in
      if not (can_write ty r.lpn old)
      then fails
      else if old == vc_max
      then to_buffer ty r [] (some s)
      else if is_in_write_buffer old
      then modified (modify_buffered ty r old s)
      else from_nand ty r old s
