-- ===== src/Atl/Buffer/Program.antt =====
-- The program of a full write buffer (write_page of ATLWrapper.cpp): the map gets the NAND places of
-- its pages.
use shrd_simulator.Base.{
  ℕ, zero, suc, ◌+◌, ◌-◌, ◌*◌, ◌/◌, ◌%◌, ◌≤◌, ◌<◌, ◌≡◌, refl, sym, ap, ◌∙◌, Bool, true, false,
  arith, ◌==◌, Bool-cases, inl, inr, ==_iff,
}
use shrd_simulator.Config.{invalid_lpn}
use shrd_simulator.Atl.Cache.State.{set_at, write_buffer_bit}
use shrd_simulator.Atl.Vpn.{plane_ppn, flip_buffer_bit}
use shrd_simulator.Atl.Buffer.{
  WriteBuf, Buffered, Owner, program_loop, program_full, WriteOp, write_op, num_slots, slot_code,
  all_used, reset_buf,
}
use shrd_simulator.Atl.Buffer.Insert.{Shape}
use shrd_simulator.Atl.Buffer.Filled.{Coherent, OwnerInRange}

abbrev ppn_of : Owner → ℕ → ℕ → ℕ
ppn_of o new_vpn slot = plane_ppn o.channel o.bank new_vpn (slot / 2) (slot % 2)

place_of_slot :
    (o : Owner) (new_vpn q off : ℕ)
    → off < 2
    → ppn_of o new_vpn (q * 2 + off) ≡ plane_ppn o.channel o.bank new_vpn q off
place_of_slot o new_vpn q off h =
    let plane : (q * 2 + off) / 2 ≡ q = omega arith in
    let offset : (q * 2 + off) % 2 ≡ off = omega arith in
    ap (λ p. plane_ppn o.channel o.bank new_vpn p ((q * 2 + off) % 2)) plane
    ∙ ap (plane_ppn o.channel o.bank new_vpn q) offset

set_at_self : (f : ℕ → ℕ) (x v : ℕ) → set_at f x v x ≡ v
set_at_self f x v = ground arith

module _ (o : Owner) (new_vpn : ℕ) (b : WriteBuf) where
  -- A page of no slot that is left keeps its entry.
  program_loop-other :
      (n : ℕ) (map_of : ℕ → ℕ) (count l : ℕ)
      → n ≤ num_slots
      → ((j : ℕ) → num_slots - n ≤ j → j < num_slots → (l == b.req_lpn j) ≡ false)
      → (program_loop n o new_vpn b map_of count).0 l ≡ map_of l
  unfolding program_loop
  program_loop-other zero map_of count l h differs = refl
  program_loop-other (suc n) map_of count l h differs =
      let slot = num_slots - suc n in
      let here = differs slot (omega arith) (omega arith) in
      let rest = λ (m : ℕ → ℕ) (c : ℕ).
        program_loop-other n m c l (omega arith) (λ j p q. differs j (omega arith) q) in
      elim (Bool-cases (b.req_lpn slot == invalid_lpn)) [
        | inl e ↦ rw (e, program_loop) (rest map_of count)
        | inr ne ↦
            rw (ne, program_loop)
              (rest (set_at map_of (b.req_lpn slot) (ppn_of o new_vpn slot)) (count + 1)
                ∙ rw here refl)
      ]

  module _ (proper : (k : ℕ) → k < num_slots → (b.req_lpn k == invalid_lpn) ≡ false)
      (distinct : (j k : ℕ)
        → j < num_slots
        → k < num_slots
        → b.req_lpn j ≡ b.req_lpn k
        → j ≡ k) where
    req_lpn-differs :
        (j k : ℕ)
        → j < num_slots
        → k < num_slots
        → (j == k) ≡ false
        → (b.req_lpn k == b.req_lpn j) ≡ false
    req_lpn-differs j k p q ne = elim (Bool-cases (b.req_lpn k == b.req_lpn j)) [
      | inl e ↦
          let same : j ≡ k = distinct j k p q (sym ((==_iff (b.req_lpn k) (b.req_lpn j)).0 e)) in
          absurd (ground arith)
      | inr f ↦ f
    ]

    program_loop-at :
        (n : ℕ) (map_of : ℕ → ℕ) (count k : ℕ)
        → n ≤ num_slots
        → num_slots - n ≤ k
        → k < num_slots
        → (program_loop n o new_vpn b map_of count).0 (b.req_lpn k) ≡ ppn_of o new_vpn k
    unfolding program_loop
    program_loop-at zero map_of count k h p q = absurd (omega arith)
    program_loop-at (suc n) map_of count k h p q =
        let slot = num_slots - suc n in
        let fits = proper slot (omega arith) in
        let m = set_at map_of (b.req_lpn slot) (ppn_of o new_vpn slot) in
        elim (Bool-cases (k == slot)) [
          | inl at ↦
              let same : k ≡ slot = (==_iff k slot).0 at in
              rw (fits, program_loop)
                (program_loop-other n m (count + 1) (b.req_lpn k) (omega arith)
                    (λ j above below. req_lpn-differs j k below q (ground arith))
                  ∙ (ap m (ap b.req_lpn same)
                      ∙ set_at_self map_of (b.req_lpn slot) (ppn_of o new_vpn slot)
                      ∙ ap (ppn_of o new_vpn) (sym same)))
          | inr above ↦
              rw (fits, program_loop)
                (program_loop-at n m (count + 1) k (omega arith) (ground arith) q)
        ]

    program_loop-count :
        (n : ℕ) (map_of : ℕ → ℕ) (count : ℕ)
        → n ≤ num_slots
        → (program_loop n o new_vpn b map_of count).1 ≡ count + n
    unfolding program_loop
    program_loop-count zero map_of count h = omega arith
    program_loop-count (suc n) map_of count h =
        let slot = num_slots - suc n in
        let m = set_at map_of (b.req_lpn slot) (ppn_of o new_vpn slot) in
        rw (proper slot (omega arith), program_loop)
          (program_loop-count n m (count + 1) (omega arith) ∙ omega arith)

flipped : (x : ℕ) → x < 192 → flip_buffer_bit x ≡ x + write_buffer_bit
flipped x h = ground arith

-- Slots with the same code are one.
slot_code-inj :
    (o : Owner) (j k : ℕ)
    → OwnerInRange o
    → j < num_slots
    → k < num_slots
    → slot_code o j ≡ slot_code o k
    → j ≡ k
slot_code-inj o j k r p q e =
    let base = ((o.channel * 2 + o.bank) * 3 + o.write_type) * 4 * 2 in
    let small : base < 185 = omega (arith, r.channel, r.bank, r.write_type) in
    let at_j = flipped (base + j) (omega (arith, small)) in
    let at_k = flipped (base + k) (omega (arith, small)) in omega (arith, sym at_j ∙ e ∙ at_k)

all_used-bit : (n : ℕ) (bits : ℕ → Bool) (k : ℕ) → all_used n bits ≡ true → k < n → bits k ≡ true
all_used-bit zero bits k h lt = absurd (omega arith)
all_used-bit (suc n) bits k h lt = ground (arith, all_used-bit n bits k)

-- The program of a full buffer that agrees with the map gives each of its eight pages the NAND place
-- of its slot, leaves the entries of the other pages, counts eight pages for the block, leaves an
-- empty buffer, and issues for each plane an operation with the numbers of the plane's pages and the
-- places that the map has for them.
pub program_full-map :
    (o : Owner) (new_vpn : ℕ) (s : Buffered)
    → OwnerInRange o
    → Coherent o s
    → all_used num_slots s.buf.bits ≡ true
    → ((k : ℕ) → k < num_slots → (s.buf.req_lpn k == invalid_lpn) ≡ false)
    → (t : Buffered) × (ops : ℕ → WriteOp) × (program_full o new_vpn s ≡ (t, 8, ops))
      × ((k : ℕ)
          → k < num_slots
          → t.map_of (s.buf.req_lpn k) ≡ plane_ppn o.channel o.bank new_vpn (k / 2) (k % 2))
      × ((l : ℕ)
          → ((k : ℕ) → k < num_slots → (l == s.buf.req_lpn k) ≡ false)
          → t.map_of l ≡ s.map_of l)
      × Shape t.buf
      × ((q off : ℕ)
          → q < 4
          → off < 2
          → (ops q).lpn off ≡ s.buf.req_lpn (q * 2 + off)
            × ((ops q).vpn off ≡ t.map_of ((ops q).lpn off)))
unfolding program_full
program_full-map o new_vpn s r i full proper =
    let distinct : (j k : ℕ)
        → j < num_slots
        → k < num_slots
        → s.buf.req_lpn j ≡ s.buf.req_lpn k
        → j ≡ k =
      λ j k p q e. slot_code-inj o j k r p q (
        sym (i j p (all_used-bit num_slots s.buf.bits j full p))
        ∙ ap s.map_of e
        ∙ i k q (all_used-bit num_slots s.buf.bits k full q)) in
    let m = (program_loop num_slots o new_vpn s.buf s.map_of 0).0 in
    let t : Buffered = record { buf = reset_buf s.buf; map_of = m; memory = s.memory } in
    let ops = write_op o new_vpn s.buf in
    let at_slot : (k : ℕ) → k < num_slots → m (s.buf.req_lpn k) ≡ ppn_of o new_vpn k = λ k q.
      program_loop-at o new_vpn s.buf proper distinct num_slots s.map_of 0 k (omega arith)
        (omega arith) q in
    (
      t,
      ops,
      ap (λ (n : ℕ). (t, n, ops))
          (program_loop-count o new_vpn s.buf proper distinct num_slots s.map_of 0 (omega arith)),
      at_slot,
      λ l differs.
          program_loop-other o new_vpn s.buf num_slots s.map_of 0 l (omega arith)
            (λ j p q. differs j q),
      record {
        bound = omega arith;
        later = λ k p q. refl;
        addr = λ q p. absurd (omega arith);
        half = λ q p. absurd (omega arith);
      },
      λ q off p h.
          (refl, sym (at_slot (q * 2 + off) (omega arith) ∙ place_of_slot o new_vpn q off h)),
    )
