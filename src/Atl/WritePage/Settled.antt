-- ===== src/Atl/WritePage/Settled.antt =====
-- write_page of ATLWrapper.cpp, for a page that is in no write buffer, where the buffer of the bank is
-- not full afterwards.
use shrd_simulator.Config.{u32}
use shrd_simulator.Base.{
  ℕ, ◌+◌, ◌-◌, ◌%◌, ◌<◌, ◌≡◌, ◌⊎◌, inl, inr, refl, sym, ap, subst, ◌∙◌, Bool, true, false, Option,
  some, List, [], ◌∷◌, arith, ◌==◌, if◌then◌else◌, Bool-cases, ==_iff,
}
use shrd_simulator.Atl.Cache.State.{vc_max, num_pvpn}
use shrd_simulator.Atl.Vpn.{WriteType, get_channel, get_bank, is_in_write_buffer}
use shrd_simulator.Atl.Buffer.{
  WriteBuf, Buffered, Owner, PageWrite, Memory, insert_page, all_used, num_slots, slot_code,
  is_tail, tail_slot,
}
use shrd_simulator.Atl.Buffer.Insert.{Shape, insert_page-Entered}
use shrd_simulator.Atl.Buffer.Filled.{OwnerInRange, used, Entered-used}
use shrd_simulator.Atl.Ftl.{Ftl, nand_bank, nand_block, with_entry, core_pages}
use shrd_simulator.Atl.Ftl.Counts.{GcIdle}
use shrd_simulator.Atl.Ftl.Located.{MapOk, Located}
use shrd_simulator.Atl.WritePage.{
  Issued, done, modify_read_op, after_insert, is_padding, to_buffer, give_up, unkept, from_nand,
  with_memory, write_page,
}
use shrd_simulator.Atl.Remap.Moved.{set_vpn-returns}
use shrd_simulator.Atl.WritePage.Old.{
  ModifyRead, type_number, can_write, is_whole, modify_read, whole_half,
}
use shrd_simulator.Atl.WritePage.Full.{owner_buf, buffered_of, with_buffered}
use shrd_simulator.Atl.WritePage.Place.{Waits-same, Vacant, SlotsUsed, BlockWaits, give_up-Vacant}
use shrd_simulator.Atl.WritePage.Padding.{padding-Placed}
use shrd_simulator.Atl.WritePage.Slot.{
  Placed, map_after, after-Located, after-only, after-SlotsUsed,
}

abbrev pub owner_at : WriteType → (n : ℕ) → Owner
owner_at ty n = record { channel = get_channel n; bank = get_bank n; write_type = type_number ty }

-- The write buffer of the bank `n` has room for a request and one more page.
pub record Room (ty : WriteType) (r : PageWrite) (n : ℕ) (bufs : ℕ → WriteBuf) : Type 0 where
  pub cursor : n < 8
  pub shape : Shape (bufs (owner_buf (owner_at ty n)))
  pub free : all_used num_slots (bufs (owner_buf (owner_at ty n))).bits ≡ false
  pub more : (used num_slots (bufs (owner_buf (owner_at ty n))).bits == 7) ≡ false
  pub tail :
      is_tail r (bufs (owner_buf (owner_at ty n))) ≡ true
      → (bufs (owner_buf (owner_at ty n))).bits (tail_slot (bufs (owner_buf (owner_at ty n))))
        ≡ false

type_number-below : (ty : WriteType) → type_number ty < 3
type_number-below WriteType.shrd_sw = omega arith
type_number-below WriteType.shrd_rw = omega arith
type_number-below WriteType.shrd_jn = omega arith

-- What the page gets: a slot, or no place if it is a padding.
abbrev pub given : WriteType → PageWrite → (n slot : ℕ) → ℕ
given ty r n slot = if is_padding ty r then vc_max else slot_code (owner_at ty n) slot

after_insert-done :
    (ty : WriteType) (o : Owner) (reads : List Issued) (s : Ftl) (kept : Bool) (b : Buffered)
    (x : Option (Bool × Buffered))
    → x ≡ some (kept, b)
    → all_used num_slots b.buf.bits ≡ false
    → after_insert ty o reads s x ≡ done kept (with_buffered o b s) reads
after_insert-done ty o reads s kept b x e room = ap (after_insert ty o reads s) e ∙ rw room refl

module _ (ty : WriteType) (r : PageWrite) (reads : List Issued) (s t : Ftl) (ok : MapOk s)
    (slots : SlotsUsed s) (v : Vacant (s.map_of r.lpn) s t)
    (room : Room ty r t.core.cur_write_bank t.bufs) (small : r.lpn < core_pages) where
  abbrev n : ℕ
  n = t.core.cur_write_bank

  to_buffer-Placed :
      (kept : Bool) × (slot : ℕ) × (u : Ftl) × (to_buffer ty r reads (some t) ≡ done kept u reads)
      × (slot < num_slots)
      × Placed r.lpn (given ty r n slot) s u
  to_buffer-Placed =
      let o = owner_at ty n in
      let range : OwnerInRange o = record {
        channel = omega (arith, room.cursor);
        bank = omega (arith, room.cursor);
        write_type = type_number-below ty;
      } in
      let (kept, slot, b, ran, e) =
        insert_page-Entered o r (buffered_of o t) room.shape room.free room.tail in
      elim (Bool-cases (is_padding ty r)) [
        | inl padding ↦ (
          false,
          0,
          with_entry r.lpn vc_max t,
          rw padding (ap (unkept reads) (set_vpn-returns t r.lpn vc_max small refl)),
          omega arith,
          rw padding (padding-Placed r.lpn s t ok slots v),
        )
        | inr written ↦ (
          kept,
          slot,
          with_buffered o b t,
          rw written (
              after_insert-done ty o reads t kept b (insert_page o r (buffered_of o t)) ran
                ((Entered-used o r (buffered_of o t) slot b e).1 ∙ room.more)),
          e.below,
          rw written (record {
            here =
                map_after o r slot (s.map_of r.lpn) s t b range ok slots v refl e r.lpn
                ∙ rw ((==_iff r.lpn r.lpn).1 refl) refl;
            others = λ l ne.
                map_after o r slot (s.map_of r.lpn) s t b range ok slots v refl e l ∙ rw ne refl;
            gone = v.gone;
            ok = record {
              located = after-Located o r slot (s.map_of r.lpn) s t b range ok slots v refl e;
              only = after-only o r slot (s.map_of r.lpn) s t b range ok slots v refl e;
              counts = v.counts;
            };
            used = after-SlotsUsed o r slot (s.map_of r.lpn) s t b range ok slots v refl e;
            idle = v.idle;
          }),
        )
      ]

-- The request that comes to the buffer: the whole half page, if the rest of it has been read.
abbrev pub requested : PageWrite → (old : ℕ) → PageWrite
requested r old = if old == vc_max then r else if is_whole r.bitmap then r else whole_half r

same_padding : (ty : WriteType) (r : PageWrite) → is_padding ty (whole_half r) ≡ is_padding ty r
same_padding WriteType.shrd_sw r = refl
same_padding WriteType.shrd_rw r = refl
same_padding WriteType.shrd_jn r = refl

valid-Located : (s : Ftl) (l v : ℕ) → Located s l v → v < num_pvpn → s.valid v ≡ true
valid-Located s l v (inl p) below = absurd (omega (arith, p, below))
valid-Located s l v (inr (inl p)) below = absurd (omega (arith, p.0, below))
valid-Located s l v (inr (inr p)) below = p.1

from_memory :
    (memory : Memory) (s : Ftl) (l w : ℕ) (u : Ftl)
    → Placed l w (with_memory memory s) u
    → Placed l w s u
from_memory memory s l w u p = record {
  here = p.here;
  others = p.others;
  gone = p.gone;
  ok = p.ok;
  used = p.used;
  idle = p.idle;
}

module _ (load : ModifyRead → Memory → Memory) (ty : WriteType) (r : PageWrite) (s : Ftl)
    (can : can_write ty r.lpn (s.map_of r.lpn) ≡ true) (ok : MapOk s) (slots : SlotsUsed s)
    (idle : GcIdle s) (place : (s.map_of r.lpn ≡ vc_max) ⊎ (s.map_of r.lpn < num_pvpn))
    (waits : BlockWaits ty (s.map_of r.lpn) s)
    (room : Room ty (requested r (s.map_of r.lpn)) s.core.cur_write_bank s.bufs) where
  abbrev Result : Type 0
  Result =
      (kept : Bool) × (slot : ℕ) × (u : Ftl) × (reads : List Issued) × (write_page load ty r s
        ≡ done kept u reads)
      × (slot < num_slots)
      × Placed r.lpn (given ty r s.core.cur_write_bank slot) s u

  in_core : r.lpn < core_pages
  in_core = ground (arith, can)

  same_waits :
      (old : ℕ) (memory : Memory) → BlockWaits ty old s → BlockWaits ty old (with_memory memory s)
  same_waits old memory h =
      let n = nand_bank old in
      let block = nand_block old in
      let left = ((s.pages n).remained block + u32 - 1) % u32 in
      Waits-same ty n block left left s (with_memory memory s) refl
        (record { rw_log = λ m. refl; jn_log = λ m. refl; cur_vpn = λ m. refl }) h

  new_page-runs :
      (s.map_of r.lpn == vc_max) ≡ true → write_page load ty r s ≡ to_buffer ty r [] (some s)
  unfolding write_page
  new_page-runs new = rw (can, new) refl

  nand_page-runs :
      (s.map_of r.lpn == vc_max) ≡ false
      → is_in_write_buffer (s.map_of r.lpn) ≡ false
      → write_page load ty r s ≡ from_nand load ty r (s.map_of r.lpn) s
  unfolding write_page
  nand_page-runs old nand = rw (can, old, nand) refl

  -- A page that had no place.
  new-Placed : s.map_of r.lpn ≡ vc_max → Result
  new-Placed new =
      let v : Vacant (s.map_of r.lpn) s s = record {
        map_of = refl;
        bufs = refl;
        cursor = refl;
        valid = λ x ne. refl;
        gone = λ below. absurd (omega (arith, new));
        counts = ok.counts;
        idle = idle;
      } in
      let nowhere = (==_iff (s.map_of r.lpn) vc_max).1 new in
      let same : requested r (s.map_of r.lpn) ≡ r = rw nowhere refl in
      let (kept, slot, u, ran, small, p) =
        to_buffer-Placed ty r [] s s ok slots v
          (subst (λ q. Room ty q s.core.cur_write_bank s.bufs) same room) in_core in
      (kept, slot, u, [], new_page-runs nowhere ∙ ran, small, p)

  -- A page that was in NAND comes to the buffer as `q`, from the pages `a`, which differ from `s` at
  -- most in the memory.
  gave_up :
      (q : PageWrite) (reads : List Issued) (memory : Memory)
      → q.lpn ≡ r.lpn
      → is_padding ty q ≡ is_padding ty r
      → Room ty q s.core.cur_write_bank s.bufs
      → s.map_of r.lpn < num_pvpn
      → write_page load ty r s
        ≡ to_buffer ty q reads (give_up ty (s.map_of r.lpn) r.lpn (with_memory memory s))
      → Result
  gave_up q reads memory same padding q_room below runs =
      let a = with_memory memory s in
      let a_ok : MapOk a = record { located = ok.located; only = ok.only; counts = ok.counts } in
      let (t, gave, v) =
        give_up-Vacant ty (s.map_of r.lpn) r.lpn a below
          (valid-Located s r.lpn (s.map_of r.lpn) (ok.located r.lpn) below) ok.counts idle
          (same_waits (s.map_of r.lpn) memory waits) in
      let t_room : Room ty q t.core.cur_write_bank t.bufs =
        subst (λ k. Room ty q k t.bufs) (sym v.cursor)
          (subst (λ (f : ℕ → WriteBuf). Room ty q s.core.cur_write_bank f) (sym v.bufs) q_room) in
      let (kept, slot, u, ran, small, p) =
        to_buffer-Placed ty q reads a t a_ok slots
          (subst (λ l. Vacant (s.map_of l) a t) (sym same) v) t_room
          (subst (λ l. l < core_pages) (sym same) in_core) in
      let at : given ty q t.core.cur_write_bank slot ≡ given ty r s.core.cur_write_bank slot =
        ap (λ k. given ty q k slot) v.cursor
        ∙ ap
            (λ (b : Bool). if b then vc_max else slot_code (owner_at ty s.core.cur_write_bank) slot)
            padding in
      (
        kept,
        slot,
        u,
        reads,
        runs ∙ ap (to_buffer ty q reads) gave ∙ ran,
        small,
        from_memory memory s r.lpn (given ty r s.core.cur_write_bank slot) u (
            subst (λ l. Placed l (given ty r s.core.cur_write_bank slot) a u) same
              (subst (λ w. Placed q.lpn w a u) at p)),
      )

  -- A page that was in NAND.
  nand-Placed : s.map_of r.lpn < num_pvpn → Result
  nand-Placed below =
      let old : (s.map_of r.lpn == vc_max) ≡ false = ground (arith, below) in
      let nand : is_in_write_buffer (s.map_of r.lpn) ≡ false = ground (arith, below) in
      let runs = nand_page-runs old nand in
      elim (Bool-cases (is_whole r.bitmap)) [
        | inl whole ↦
            let same : requested r (s.map_of r.lpn) ≡ r = rw (old, whole) refl in
            gave_up r [] s.memory refl refl
              (subst (λ q. Room ty q s.core.cur_write_bank s.bufs) same room) below
              (runs ∙ rw whole refl)
        | inr part ↦
            let half : requested r (s.map_of r.lpn) ≡ whole_half r = rw (old, part) refl in
            let read = modify_read r (s.map_of r.lpn) in
            gave_up (whole_half r) (modify_read_op read ∷ []) (load read s.memory) refl
              (same_padding ty r) (subst (λ q. Room ty q s.core.cur_write_bank s.bufs) half room)
              below (runs ∙ rw part refl)
      ]

  -- Where the map, the counts and the slots are in order, no garbage collection has begun, and the
  -- block of the page, if it is of the journal, waits for other remaps too, or, if it is of the random
  -- writes and waits for no other, is in the list of the log: a page of an area that
  -- this kind of writes may use, and that is nowhere or in NAND, comes to a slot of the write buffer of the bank that is written, where this one has room for more than the
  -- request: write_page returns, the page has the code of the slot (no place, if it is a padding),
  -- its old place in NAND is not valid any more, no other page moves, and the map, the counts of
  -- valid pages and the slots are in order again.
  pub write_page-Placed : Result
  write_page-Placed = elim place [ inl new ↦ new-Placed new | inr below ↦ nand-Placed below ]
