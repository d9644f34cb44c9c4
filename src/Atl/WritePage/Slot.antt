-- ===== src/Atl/WritePage/Slot.antt =====
-- A page that has left its old place gets a slot of a write buffer (write_page of ATLWrapper.cpp).
use shrd_simulator.Base.{
  ℕ, ◌≤◌, ◌<◌, ◌≡◌, inl, inr, refl, sym, ap, subst, ◌∙◌, Bool, true, false, arith, ◌==◌,
  if◌then◌else◌, ◌&&◌, Bool-cases, ==_iff,
}
use shrd_simulator.Atl.Cache.State.{vc_max, num_pvpn, write_buffer_bit}
use shrd_simulator.Atl.Buffer.{WriteBuf, Buffered, Owner, PageWrite, slot_code}
use shrd_simulator.Atl.Buffer.Insert.{Entered}
use shrd_simulator.Atl.Buffer.Filled.{OwnerInRange}
use shrd_simulator.Atl.Ftl.{Ftl, code_buf, code_slot, held}
use shrd_simulator.Atl.Ftl.Counts.{GcIdle}
use shrd_simulator.Atl.Ftl.Located.{MapOk, Located}
use shrd_simulator.Atl.Remap.Moved.{distinct_places}
use shrd_simulator.Atl.WritePage.Full.{owner_buf, buffered_of, with_buffered}
use shrd_simulator.Atl.WritePage.Place.{Vacant, SlotsUsed, slot_code-Leads}

clash : (b : Bool) → b ≡ true → b ≡ false → ⊥
clash b p q = cc

module _ (o : Owner) (r : PageWrite) (slot : ℕ) (t : Ftl) (b : Buffered)
    (e : Entered o r (buffered_of o t) slot b) where
  abbrev u : Ftl
  u = with_buffered o b t

  -- The slots after the insertion.
  slots_req :
      (c j : ℕ)
      → (u.bufs c).req_lpn j
        ≡ (if (c == owner_buf o) && (j == slot) then r.lpn else (t.bufs c).req_lpn j)
  slots_req c j = elim (Bool-cases (c == owner_buf o)) [
    | inl same ↦ rw same (
        e.req_lpn j
        ∙ ap (λ k. if j == slot then r.lpn else (t.bufs k).req_lpn j)
            (sym ((==_iff c (owner_buf o)).0 same)))
    | inr other ↦ rw other refl
  ]

  slots_bits :
      (c j : ℕ)
      → (u.bufs c).bits j ≡ (if (c == owner_buf o) && (j == slot) then true else (t.bufs c).bits j)
  slots_bits c j = elim (Bool-cases (c == owner_buf o)) [
    | inl same ↦ rw same (
        e.bits j
        ∙ ap (λ k. if j == slot then true else (t.bufs k).bits j)
            (sym ((==_iff c (owner_buf o)).0 same)))
    | inr other ↦ rw other refl
  ]

module _ (o : Owner) (r : PageWrite) (slot old : ℕ) (s t : Ftl) (b : Buffered)
    (range : OwnerInRange o) (ok : MapOk s) (used : SlotsUsed s) (v : Vacant old s t)
    (at_old : s.map_of r.lpn ≡ old) (e : Entered o r (buffered_of o t) slot b) where
  abbrev w : ℕ
  w = slot_code o slot

  free_slot : (s.bufs (owner_buf o)).bits slot ≡ false
  free_slot = subst (λ f. (f (owner_buf o)).bits slot ≡ false) v.bufs e.free

  -- A used slot is another one.
  other_slot :
      (x : ℕ)
      → (s.bufs (code_buf x)).bits (code_slot x) ≡ true
      → ((code_buf x == owner_buf o) && (code_slot x == slot)) ≡ false
  other_slot x set = elim (Bool-cases (code_buf x == owner_buf o)) [
    | inl p ↦ elim (Bool-cases (code_slot x == slot)) [
      | inl q ↦
          let at_buf =
            ap (λ k. (s.bufs k).bits (code_slot x)) ((==_iff (code_buf x) (owner_buf o)).0 p) in
          let at_slot = ap (λ k. (s.bufs (owner_buf o)).bits k) ((==_iff (code_slot x) slot).0 q) in
          absurd (clash ((s.bufs (owner_buf o)).bits slot) (sym (at_buf ∙ at_slot) ∙ set) free_slot)
      | inr q ↦ rw (p, q) refl
    ]
    | inr p ↦ rw p refl
  ]

  here_slot : ((code_buf w == owner_buf o) && (code_slot w == slot)) ≡ true
  here_slot =
      let leads = slot_code-Leads o slot range e.below in
      let p = (==_iff (code_buf w) (owner_buf o)).1 leads.buf in
      let q = (==_iff (code_slot w) slot).1 leads.at in both p q
    where
      both : {x y : Bool} → x ≡ true → y ≡ true → (x && y) ≡ true
      both p q = rw (p, q) refl

  not_taken : (l : ℕ) → (s.map_of l == w) ≡ false
  not_taken l = elim (Bool-cases (s.map_of l == w)) [
    | inl same ↦
        let at = (==_iff (s.map_of l) w).0 same in
        let leads = slot_code-Leads o slot range e.below in
        let set =
          used l (subst (λ x. write_buffer_bit ≤ x) (sym at) leads.from)
            (subst (λ x. x < vc_max) (sym at) leads.below) in
        let differs = other_slot (s.map_of l) set in
        absurd (
          clash ((code_buf w == owner_buf o) && (code_slot w == slot)) here_slot
            (ap (λ x. (code_buf x == owner_buf o) && (code_slot x == slot)) (sym at) ∙ differs))
    | inr other ↦ other
  ]

  pub map_after : (l : ℕ) → b.map_of l ≡ (if l == r.lpn then w else s.map_of l)
  map_after l = e.map_of l ∙ ap (λ (f : ℕ → ℕ). if l == r.lpn then w else f l) v.map_of

  abbrev after : Ftl
  after = with_buffered o b t

  slot_kept :
      (l : ℕ)
      → write_buffer_bit ≤ s.map_of l
      → s.map_of l < vc_max
      → (held after (s.map_of l) ≡ held s (s.map_of l))
        × ((after.bufs (code_buf (s.map_of l))).bits (code_slot (s.map_of l)) ≡ true)
  slot_kept l from below =
      let x = s.map_of l in
      let set = used l from below in
      let apart = other_slot x set in
      (
        slots_req o r slot t b e (code_buf x) (code_slot x)
            ∙ rw apart (ap (λ (f : ℕ → WriteBuf). (f (code_buf x)).req_lpn (code_slot x)) v.bufs),
        slots_bits o r slot t b e (code_buf x) (code_slot x)
            ∙ rw apart
                (ap (λ (f : ℕ → WriteBuf). (f (code_buf x)).bits (code_slot x)) v.bufs ∙ set),
      )

  held_here : held after w ≡ r.lpn
  held_here = slots_req o r slot t b e (code_buf w) (code_slot w) ∙ rw here_slot refl

  pub after-Located : (l : ℕ) → Located after l (b.map_of l)
  after-Located l = elim (Bool-cases (l == r.lpn)) [
    | inl here ↦
        let leads = slot_code-Leads o slot range e.below in
        subst (λ k. Located after l k) (sym (map_after l ∙ rw here refl))
          (inr (inl (leads.from, leads.below, held_here ∙ sym ((==_iff l r.lpn).0 here))))
    | inr other ↦
        subst (λ k. Located after l k) (sym (map_after l ∙ rw other refl))
          (stays l other (ok.located l))
  ]
    where
      stays :
          (l : ℕ) → (l == r.lpn) ≡ false → Located s l (s.map_of l) → Located after l (s.map_of l)
      stays l other (inl p) = inl p
      stays l other (inr (inl p)) = inr (inl (p.0, p.1, (slot_kept l p.0 p.1).0 ∙ p.2))
      stays l other (inr (inr p)) =
          let named : (s.map_of l == vc_max) ≡ false = ground (arith, p.0) in
          let apart = distinct_places s l r.lpn ok named other in
          inr
            (inr (p.0, v.valid (s.map_of l) (ap (λ k. s.map_of l == k) (sym at_old) ∙ apart) ∙ p.1))

  pub after-only : (l m : ℕ) → b.map_of l ≡ b.map_of m → (b.map_of l == vc_max) ≡ false → l ≡ m
  after-only l m same named =
      only_of s.map_of r.lpn w l m (ok.only l m) (not_taken l) (not_taken m)
        (sym (map_after l) ∙ same ∙ map_after m) (ap (λ k. k == vc_max) (sym (map_after l)) ∙ named)
    where
      only_of :
          (f : ℕ → ℕ) (p w l m : ℕ)
          → (f l ≡ f m → (f l == vc_max) ≡ false → l ≡ m)
          → (f l == w) ≡ false
          → (f m == w) ≡ false
          → (if l == p then w else f l) ≡ (if m == p then w else f m)
          → ((if l == p then w else f l) == vc_max) ≡ false
          → l ≡ m
      only_of f p w l m only nl nm same named = ground arith

  pub after-SlotsUsed : SlotsUsed after
  after-SlotsUsed l from below = elim (Bool-cases (l == r.lpn)) [
    | inl here ↦
        subst (λ k. (after.bufs (code_buf k)).bits (code_slot k) ≡ true)
          (sym (map_after l ∙ rw here refl))
          (slots_bits o r slot t b e (code_buf w) (code_slot w) ∙ rw here_slot refl)
    | inr other ↦
        let at = map_after l ∙ rw other refl in
        subst (λ k. (after.bufs (code_buf k)).bits (code_slot k) ≡ true) (sym at)
          (slot_kept l (subst (λ k. write_buffer_bit ≤ k) at from)
            (subst (λ k. k < vc_max) at below)).1
  ]

-- What the write of a page to a slot makes of the pages: it has the slot, it has no place in NAND any
-- more, the others are where they were, and all are in order.
pub record Placed (lpn w : ℕ) (s u : Ftl) : Type 0 where
  pub here : u.map_of lpn ≡ w
  pub others : (l : ℕ) → (l == lpn) ≡ false → u.map_of l ≡ s.map_of l
  pub gone : s.map_of lpn < num_pvpn → u.valid (s.map_of lpn) ≡ false
  pub ok : MapOk u
  pub used : SlotsUsed u
  pub idle : GcIdle u
