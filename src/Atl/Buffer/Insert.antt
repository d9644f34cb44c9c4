-- ===== src/Atl/Buffer/Insert.antt =====
-- The insertion of a request into a write buffer (write_page of ATLWrapper.cpp) takes one free slot.
use shrd_simulator.Base.{
  ℕ, zero, suc, ◌+◌, ◌-◌, ◌*◌, ◌/◌, ◌≤◌, ◌<◌, ◌≡◌, ◌⊎◌, inl, inr, refl, ap, ◌∙◌, Bool, true, false,
  some, arith, ◌==◌, ltb, if◌then◌else◌, ◌||◌, Bool-cases, ==_iff,
}
use shrd_simulator.Config.{planes_per_bank}
use shrd_simulator.Atl.Buffer.{
  WriteBuf, Buffered, Owner, PageWrite, insert_page, insert_new, insert_tail, insert_hole, new_slot,
  tail_slot, is_tail, first_hole, num_slots, none_used, all_used, slot_code, fill, filled,
}

-- The used slots of a write buffer: each of the pages before the index has an address and a used
-- half, and the slots behind are free.
pub record Shape (b : WriteBuf) : Type 0 where
  pub bound : b.index ≤ planes_per_bank
  pub later : (k : ℕ) → b.index * 2 ≤ k → k < num_slots → b.bits k ≡ false
  pub addr : (q : ℕ) → q < b.index → (a : ℕ) × (b.addr q ≡ some a)
  pub half : (q : ℕ) → q < b.index → (b.bits (q * 2) || b.bits (q * 2 + 1)) ≡ true

-- The request took the free slot, and nothing else changed in the slots and in the map.
pub record Entered (o : Owner) (r : PageWrite) (s : Buffered) (slot : ℕ) (t : Buffered)
    : Type 0 where
  pub below : slot < num_slots
  pub free : s.buf.bits slot ≡ false
  pub bits : (k : ℕ) → t.buf.bits k ≡ (if k == slot then true else s.buf.bits k)
  pub req_lpn : (k : ℕ) → t.buf.req_lpn k ≡ (if k == slot then r.lpn else s.buf.req_lpn k)
  pub map_of : (l : ℕ) → t.map_of l ≡ (if l == r.lpn then slot_code o slot else s.map_of l)
  pub shape : Shape t.buf

-- The loop starts at the slot before those that it has left.
at_or_above :
    (n : ℕ) (bits : ℕ → Bool) (k : ℕ)
    → bits (num_slots - suc n) ≡ true
    → (num_slots - n ≤ k → k < num_slots → bits k ≡ true)
    → num_slots - suc n ≤ k
    → k < num_slots
    → bits k ≡ true
at_or_above n bits k used above p q = elim (Bool-cases (k == num_slots - suc n)) [
  | inl e ↦ ap bits ((==_iff k (num_slots - suc n)).0 e) ∙ used
  | inr ne ↦ above (ground arith) q
]

first_hole-found :
    (n : ℕ) (bits : ℕ → Bool)
    → n ≤ num_slots
    → ((k : ℕ) × (first_hole n bits ≡ some k)
        × (num_slots - n ≤ k)
        × (k < num_slots)
        × (bits k ≡ false))
      ⊎ ((k : ℕ) → num_slots - n ≤ k → k < num_slots → bits k ≡ true)
unfolding first_hole
first_hole-found zero bits h = inr (λ k p q. absurd (omega arith))
first_hole-found (suc n) bits h = elim (Bool-cases (bits (num_slots - suc n))) [
  | inl used ↦ elim (first_hole-found n bits (omega arith)) [
    | inl (k, run, p, q, free) ↦ inl (k, rw used run, omega arith, q, free)
    | inr all ↦ inr (λ k p q. at_or_above n bits k used (all k) p q)
  ]
  | inr free ↦ inl (num_slots - suc n, rw free refl, omega arith, omega arith, free)
]

-- A request for a second half finds that half of the last page free.
abbrev pub TailFree : PageWrite → Buffered → Type 0
TailFree r s = is_tail r s.buf ≡ true → s.buf.bits (tail_slot s.buf) ≡ false

module _ (o : Owner) (r : PageWrite) (s : Buffered) (k : Shape s.buf) where
  insert_new-Entered :
      s.buf.index < planes_per_bank → Entered o r s (new_slot r s.buf) (insert_new o r s)
  insert_new-Entered lt = record {
    below = ground arith;
    free = k.later (new_slot r s.buf) (ground arith) (ground arith);
    bits = λ j. refl;
    req_lpn = λ j. refl;
    map_of = λ l. refl;
    shape = record {
      bound = omega arith;
      later = λ j p q. ground (arith, k.later j (omega arith) q);
      addr = λ q p. elim (Bool-cases (q == s.buf.index)) [
        | inl e ↦ (r.buffer, rw e refl)
        | inr ne ↦ let old = k.addr q (ground arith) in (old.0, rw ne old.1)
      ];
      half = λ q p. ground (arith, k.half q);
    };
  }

  -- A slot below the index that is taken keeps the shape.
  taken-Shape :
      (slot : ℕ) (t : WriteBuf)
      → slot < s.buf.index * 2
      → t.index ≡ s.buf.index
      → ((j : ℕ) → t.bits j ≡ (if j == slot then true else s.buf.bits j))
      → ((q : ℕ) → t.addr q ≡ s.buf.addr q)
      → Shape t
  taken-Shape slot t lt index bits addr = record {
    bound = omega (arith, k.bound, index);
    later = λ j p q. ground (arith, bits j, k.later j (omega (arith, index)) q, index);
    addr = λ q p. let old = k.addr q (omega (arith, index)) in (old.0, addr q ∙ old.1);
    half = λ q p. ground (arith, bits (q * 2), bits (q * 2 + 1), k.half q, index);
  }

  insert_tail-Entered :
      (s.buf.index == 0) ≡ false
      → s.buf.bits (tail_slot s.buf) ≡ false
      → Entered o r s (tail_slot s.buf) (insert_tail o r s)
  insert_tail-Entered some_page free = record {
    below = ground (arith, k.bound);
    free = free;
    bits = λ j. refl;
    req_lpn = λ j. refl;
    map_of = λ l. refl;
    shape =
        taken-Shape (tail_slot s.buf) (insert_tail o r s).buf (ground arith) refl (λ j. refl)
          (λ q. refl);
  }

  -- Where all four pages are begun and a slot is free, the loop finds one and fills it.
  insert_hole-Entered :
      s.buf.index ≡ planes_per_bank
      → all_used num_slots s.buf.bits ≡ false
      → (slot : ℕ) × (t : Buffered) × (insert_hole o r s (first_hole num_slots s.buf.bits)
          ≡ some (false, t))
        × Entered o r s slot t
  insert_hole-Entered four room = elim (first_hole-found num_slots s.buf.bits (omega arith)) [
    | inl (slot, run, p, q, free) ↦
        let (dst, at) = k.addr (slot / 2) (omega (arith, four)) in
        let t = filled o r slot s dst in
        (
          slot,
          t,
          ap (insert_hole o r s) run ∙ ap (fill o r slot s) at,
          record {
            below = q;
            free = free;
            bits = λ j. refl;
            req_lpn = λ j. refl;
            map_of = λ l. refl;
            shape = taken-Shape slot t.buf (omega (arith, four)) refl (λ j. refl) (λ j. refl);
          },
        )
    | inr all ↦ absurd (ground (arith, all 0, all 1, all 2, all 3, all 4, all 5, all 6, all 7))
  ]

  -- From a write buffer in order with a free slot, the insertion passes its assertions: the request
  -- takes one free slot, which the map then gives for its page, and the other slots and the rest of
  -- the map stay.
  pub insert_page-Entered :
      all_used num_slots s.buf.bits ≡ false
      → TailFree r s
      → (kept : Bool) × (slot : ℕ) × (t : Buffered) × (insert_page o r s ≡ some (kept, t))
        × Entered o r s slot t
  unfolding insert_page
  insert_page-Entered room tail = elim (Bool-cases (s.buf.index == 0)) [
    | inl first ↦
        (true, new_slot r s.buf, insert_new o r s, rw first refl, insert_new-Entered (ground arith))
    | inr later ↦ elim (Bool-cases (is_tail r s.buf)) [
      | inl last ↦ (
        true,
        tail_slot s.buf,
        insert_tail o r s,
        rw (later, last) refl,
        insert_tail-Entered later (tail last),
      )
      | inr other ↦ elim (Bool-cases (ltb s.buf.index planes_per_bank)) [
        | inl more ↦ (
          true,
          new_slot r s.buf,
          insert_new o r s,
          rw (later, other, more) refl,
          insert_new-Entered (ground arith),
        )
        | inr four ↦
            let (slot, t, run, e) = insert_hole-Entered (ground (arith, k.bound)) room in
            let used : none_used num_slots s.buf.bits ≡ false = ground (arith, k.half 0, k.bound) in
            (false, slot, t, rw (later, other, four, used) run, e)
      ]
    ]
  ]
