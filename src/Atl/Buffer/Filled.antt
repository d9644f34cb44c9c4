-- ===== src/Atl/Buffer/Filled.antt =====
-- The slots of a write buffer and the page map agree (write_page of ATLWrapper.cpp), and a read of a
-- buffered page finds its slot (RSP_ReadPage).
use shrd_simulator.Base.{
  ℕ, zero, suc, ◌+◌, ◌*◌, ◌/◌, ◌%◌, ◌≤◌, ◌<◌, ◌≡◌, refl, sym, ap, ◌∙◌, Bool, true, false, some,
  arith, ◌==◌, if◌then◌else◌, ltb, not, ◌&&◌, Bool-cases, inl, inr, ==_iff,
}
use shrd_simulator.Config.{num_channels, banks_per_channel, twrite_cmd_in_page}
use shrd_simulator.Atl.Cache.State.{vc_max}
use shrd_simulator.Atl.Vpn.{
  BufferPlace, PlaceInRange, code_of_place, code_of_place-back, is_in_write_buffer,
}
use shrd_simulator.Atl.ReadPage.{
  Buffers, Sectors, read_write_buffer, rsp_read_page, rsp_read_page-buffer, area_of, half_of,
  check_bit, sectors_per_page,
}
use shrd_simulator.Atl.Buffer.{
  Buffered, Owner, PageWrite, insert_page, num_slots, all_used, slot_code,
}
use shrd_simulator.Atl.Buffer.Insert.{Entered, Shape, TailFree, insert_page-Entered}

pub record OwnerInRange (o : Owner) : Type 0 where
  pub channel : o.channel < num_channels
  pub bank : o.bank < banks_per_channel
  pub write_type : o.write_type < 3

abbrev pub place_of : Owner → ℕ → BufferPlace
place_of o slot = record {
  channel = o.channel;
  bank = o.bank;
  write_type = o.write_type;
  plane = slot / 2;
  buf_offset = slot % 2;
}

pub place_of-InRange :
    (o : Owner) (slot : ℕ) → OwnerInRange o → slot < num_slots → PlaceInRange (place_of o slot)
place_of-InRange o slot k h = record {
  channel = k.channel;
  bank = k.bank;
  write_type = k.write_type;
  plane = omega arith;
  buf_offset = omega arith;
}

pub slot_code-place : (o : Owner) (slot : ℕ) → slot_code o slot ≡ code_of_place (place_of o slot)
slot_code-place o slot = let e : slot ≡ slot / 2 * 2 + slot % 2 = omega arith in ap (slot_code o) e

-- A page whose map entry is a code of a write buffer.
abbrev pub is_buffered : ℕ → Bool
is_buffered vpn = is_in_write_buffer vpn && not (vpn == vc_max)

slot_code-buffered :
    (o : Owner) (slot : ℕ)
    → OwnerInRange o
    → slot < num_slots
    → is_buffered (slot_code o slot) ≡ true
slot_code-buffered o slot k h =
    let (back, marked, below) =
      code_of_place-back (place_of o slot) (place_of-InRange o slot k h) in
    let differs : (code_of_place (place_of o slot) == vc_max) ≡ false = ground (arith, below) in
    ap is_buffered (slot_code-place o slot) ∙ rw (marked, differs) refl

-- Each used slot is the one that the map gives for its page.
abbrev pub Coherent : Owner → Buffered → Type 0
Coherent o s =
    (k : ℕ) → k < num_slots → s.buf.bits k ≡ true → s.map_of (s.buf.req_lpn k) ≡ slot_code o k

-- The number of used slots below `n`.
abbrev pub used : ℕ → (ℕ → Bool) → ℕ
used zero bits = 0
used (suc n) bits = (if bits n then 1 else 0) + used n bits

used-same :
    (n slot : ℕ) (old new : ℕ → Bool)
    → ((k : ℕ) → new k ≡ (if k == slot then true else old k))
    → n ≤ slot
    → used n new ≡ used n old
used-same zero slot old new e h = refl
used-same (suc n) slot old new e h =
    let here : new n ≡ old n = ground (arith, e n) in
    ground (arith, here, used-same n slot old new e (omega arith))

used-taken :
    (n slot : ℕ) (old new : ℕ → Bool)
    → ((k : ℕ) → new k ≡ (if k == slot then true else old k))
    → old slot ≡ false
    → slot < n
    → used n new ≡ used n old + 1
used-taken zero slot old new e free h = absurd (omega arith)
used-taken (suc n) slot old new e free h = elim (Bool-cases (n == slot)) [
  | inl at ↦
      let same : n ≡ slot = (==_iff n slot).0 at in
      let was : old n ≡ false = ap old same ∙ free in
      let is : new n ≡ true = ground (arith, e n) in
      ground (arith, was, is, used-same n slot old new e (omega (arith, same)))
  | inr ne ↦
      let here : new n ≡ old n = ground (arith, e n) in
      ground (arith, here, used-taken n slot old new e free (ground arith))
]

used-bound : (n : ℕ) (bits : ℕ → Bool) → used n bits ≤ n
used-bound zero bits = omega arith
used-bound (suc n) bits = ground (arith, used-bound n bits)

all_used-used : (n : ℕ) (bits : ℕ → Bool) → all_used n bits ≡ (used n bits == n)
all_used-used zero bits = refl
all_used-used (suc n) bits = elim (Bool-cases (bits n)) [
  | inl e ↦ rw e (ground (arith, all_used-used n bits))
  | inr ne ↦ rw ne (ground (arith, used-bound n bits))
]

eighth : (x : ℕ) → (x + 1 == 8) ≡ (x == 7)
eighth x = ground arith

module _ (o : Owner) (r : PageWrite) (s : Buffered) (slot : ℕ) (t : Buffered)
    (e : Entered o r s slot t) where
  -- An insertion into a free slot uses one slot more, and the buffer is full, so that write_page
  -- programs it, exactly when eight are used.
  pub Entered-used :
      (used num_slots t.buf.bits ≡ used num_slots s.buf.bits + 1)
      × (all_used num_slots t.buf.bits ≡ (used num_slots s.buf.bits == 7))
  Entered-used =
      let more = used-taken num_slots slot s.buf.bits t.buf.bits e.bits e.free e.below in
      (
        more,
        all_used-used num_slots t.buf.bits
            ∙ ap (λ (x : ℕ). x == num_slots) more
            ∙ eighth (used num_slots s.buf.bits),
      )

  -- The insertion of a page that is in no write buffer keeps the used slots and the map in agreement.
  pub Entered-Coherent :
      OwnerInRange o → Coherent o s → is_buffered (s.map_of r.lpn) ≡ false → Coherent o t
  Entered-Coherent range i out k h set = elim (Bool-cases (k == slot)) [
    | inl at ↦
        let same : k ≡ slot = (==_iff k slot).0 at in
        let lpn : t.buf.req_lpn k ≡ r.lpn = e.req_lpn k ∙ rw at refl in
        let code : t.map_of r.lpn ≡ slot_code o slot = ground (arith, e.map_of r.lpn) in
        ap t.map_of lpn ∙ code ∙ ap (slot_code o) (sym same)
    | inr other ↦
        let old : s.buf.bits k ≡ true = sym (e.bits k ∙ rw other refl) ∙ set in
        let lpn : t.buf.req_lpn k ≡ s.buf.req_lpn k = e.req_lpn k ∙ rw other refl in
        let coded = i k h old in
        elim (Bool-cases (s.buf.req_lpn k == r.lpn)) [
          | inl same ↦
              let both : s.map_of r.lpn ≡ slot_code o k =
                ap s.map_of (sym ((==_iff (s.buf.req_lpn k) r.lpn).0 same)) ∙ coded in
              let marked : is_buffered (s.map_of r.lpn) ≡ true =
                ap is_buffered both ∙ slot_code-buffered o k range h in
              absurd (ground arith)
          | inr differs ↦ ap t.map_of lpn ∙ e.map_of (s.buf.req_lpn k) ∙ rw differs coded
        ]
  ]

  -- After the insertion, a read of the page comes from the write buffer, and gives the requested
  -- sectors of the half page of the slot.
  pub Entered-read :
      OwnerInRange o
      → (request bitmap : ℕ) (buffers : Buffers) (dst : Sectors) → r.lpn < twrite_cmd_in_page
      → (out : Sectors) × (rsp_read_page t.map_of request r.lpn bitmap buffers dst
          ≡ some (read_write_buffer (area_of r.lpn) out))
        × ((i : ℕ)
            → out i ≡ (
                if ltb i sectors_per_page && check_bit bitmap i
                then half_of buffers (place_of o slot) i
                else dst i))
  Entered-read range request bitmap buffers dst low =
      let code : t.map_of r.lpn ≡ slot_code o slot = ground (arith, e.map_of r.lpn) in
      rsp_read_page-buffer t.map_of request r.lpn bitmap buffers dst (place_of o slot)
        (place_of-InRange o slot range e.below) low (code ∙ slot_code-place o slot)

-- What holds of a write buffer between two insertions.
pub record BufferOk (o : Owner) (s : Buffered) : Type 0 where
  pub shape : Shape s.buf
  pub coherent : Coherent o s
  pub room : all_used num_slots s.buf.bits ≡ false

-- What an insertion makes of a buffer: one slot more is used, the slots and the map agree, and the
-- buffer is full when eight slots are used, and has its shape and room for the next request before.
pub record Inserted (o : Owner) (r : PageWrite) (s : Buffered) (slot : ℕ) (t : Buffered)
    : Type 0 where
  pub entered : Entered o r s slot t
  pub coherent : Coherent o t
  pub more : used num_slots t.buf.bits ≡ used num_slots s.buf.bits + 1
  pub full : all_used num_slots t.buf.bits ≡ (used num_slots s.buf.bits == 7)

-- From a write buffer in order, the insertion of a page that is in no write buffer, whose half of the
-- last page is free, passes its assertions: the page takes one free slot, and the map gives this slot
-- for it and stays elsewhere; every used slot agrees with the map; one slot more is used, and the
-- buffer is full, which makes write_page program it, exactly when seven were used before.
pub insert_page-Inserted :
    (o : Owner) (r : PageWrite) (s : Buffered)
    → OwnerInRange o
    → BufferOk o s
    → is_buffered (s.map_of r.lpn) ≡ false
    → TailFree r s
    → (kept : Bool) × (slot : ℕ) × (t : Buffered) × (insert_page o r s ≡ some (kept, t))
      × Inserted o r s slot t
insert_page-Inserted o r s range i out tail =
    let (kept, slot, t, run, e) = insert_page-Entered o r s i.shape i.room tail in
    (
      kept,
      slot,
      t,
      run,
      record {
        entered = e;
        coherent = Entered-Coherent o r s slot t e range i.coherent out;
        more = (Entered-used o r s slot t e).0;
        full = (Entered-used o r s slot t e).1;
      },
    )
