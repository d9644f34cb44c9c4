-- ===== src/Host/Pack.antt =====
-- The packing loop of do_twrite: how much it packs, and where the pages come to lie.
use shrd_simulator.Base.{
  ℕ, zero, suc, ◌+◌, ◌-◌, ◌%◌, ◌≤◌, ◌<◌, ◌≡◌, refl, subst, ◌⊎◌, inl, inr, some, List, [], ◌∷◌, ◌++◌,
  arith, length, length-append, ltb, ◌==◌, if◌then◌else◌, Bool-cases, not, ◌&&◌, ◌||◌,
}
use shrd_simulator.Config.{u32, invalid_lpn}
use shrd_simulator.Host.State.{Packing, lpn_range}
use shrd_simulator.Host.{pad, put, draw, pack}

-- A page of the host at a place of the log: padding, or a page of the core that the place has.
abbrev pub Placed : ℕ → ℕ → Type 0
Placed place o = (o ≡ invalid_lpn) ⊎ ((o % 2 ≡ place % 2) × (o < lpn_range))

abbrev pub AllPlaced : ℕ → List ℕ → Type 0
AllPlaced place [] = Unit {0}
AllPlaced place (o ∷ os) = Placed place o × AllPlaced (suc place) os

pub AllPlaced-snoc :
    (place o : ℕ) (os : List ℕ)
    → AllPlaced place os
    → Placed (place + length os) o
    → AllPlaced place (os ++ o ∷ [])
AllPlaced-snoc place o [] h k = (subst (λ q. Placed q o) (omega arith) k, tt)
AllPlaced-snoc place o (p ∷ os) h k =
    (h.0, AllPlaced-snoc (suc place) o os h.1 (subst (λ q. Placed q o) (omega arith) k))

-- The variables of the loop agree, and keep to the bounds.
pub record Packed (start max num : ℕ) (p : Packing) : Type 0 where
  pub pages : p.req_pages ≡ length p.o_addr
  pub count : p.io_count ≡ length p.o_addr
  pub place : p.log_addr ≡ start + length p.o_addr
  pub in_max : p.req_pages ≤ max
  pub in_num : p.req_pages ≤ suc num
  pub placed : AllPlaced start p.o_addr

module _ (rand : ℕ → ℕ) (start max num : ℕ) (small : start + max + 2 < u32) where
  draw-lt : (k : ℕ) → draw rand k < lpn_range
  unfolding draw
  draw-lt k = omega arith

  put-Packed :
      (lpn : ℕ) (p : Packing)
      → Packed start max num p
      → p.req_pages < max
      → p.req_pages ≤ num
      → p.log_addr % 2 ≡ lpn % 2
      → lpn < lpn_range
      → Packed start max num (put lpn (record p { req_pages = (p.req_pages + 1) % u32 }))
  unfolding put
  put-Packed lpn p h m n e r = record {
    pages = omega (arith, h.pages, h.place, length-append p.o_addr (lpn ∷ []));
    count = omega (arith, h.count, h.pages, length-append p.o_addr (lpn ∷ []));
    place = omega (arith, h.place, h.pages, length-append p.o_addr (lpn ∷ []));
    in_max = omega arith;
    in_num = omega arith;
    placed = AllPlaced-snoc start lpn p.o_addr h.placed (inr (omega (arith, h.place), r));
  }

  -- A page behind a place of padding.
  padded-Packed :
      (lpn : ℕ) (p : Packing)
      → Packed start max num p
      → p.req_pages + 1 < max
      → p.req_pages < num
      → (p.log_addr + 1) % 2 ≡ lpn % 2
      → lpn < lpn_range
      → Packed start max num (put lpn (pad (record p { req_pages = (p.req_pages + 1) % u32 })))
  unfolding put pad
  padded-Packed lpn p h m n e r =
      let one = length-append p.o_addr (invalid_lpn ∷ []) in
      let two = length-append (p.o_addr ++ invalid_lpn ∷ []) (lpn ∷ []) in
      record {
        pages = omega (arith, h.pages, h.place, one, two);
        count = omega (arith, h.count, h.pages, one, two);
        place = omega (arith, h.place, h.pages, one, two);
        in_max = omega arith;
        in_num = omega arith;
        placed =
            AllPlaced-snoc start lpn (p.o_addr ++ invalid_lpn ∷ [])
              (AllPlaced-snoc start invalid_lpn p.o_addr h.placed (inl refl))
              (inr (omega (arith, h.place, one), r));
      }

  -- A page joins, behind padding where its core asks for it.
  joined-Packed :
      (k : ℕ) (p : Packing)
      → Packed start max num p
      → p.req_pages < max
      → p.req_pages < num
      → ((p.log_addr % 2 ≡ draw rand k % 2) ⊎ (p.req_pages + 1 < max))
      → Packed start max num (
          put (draw rand k) (
            if p.log_addr % 2 == draw rand k % 2
            then record p { req_pages = (p.req_pages + 1) % u32 }
            else pad (record p { req_pages = (p.req_pages + 1) % u32 })))
  joined-Packed k p h m n room = elim (Bool-cases (p.log_addr % 2 == draw rand k % 2)) [
    | inl same ↦ rw same (put-Packed (draw rand k) p h m (omega arith) (ground arith) (draw-lt k))
    | inr other ↦
        rw other (padded-Packed (draw rand k) p h (ground arith) n (ground arith) (draw-lt k))
  ]

  joined-grows :
      (lpn : ℕ) (p : Packing)
      → p.req_pages < max
      → p.req_pages
        < (put lpn (
            if p.log_addr % 2 == lpn % 2
            then record p { req_pages = (p.req_pages + 1) % u32 }
            else pad (record p { req_pages = (p.req_pages + 1) % u32 }))).req_pages
  unfolding put pad
  joined-grows lpn p m = ground arith

  stopped-Packed :
      (p : Packing)
      → Packed start max num p
      → Packed start max num (record p { req_pages = (p.req_pages + 1) % u32 - 1 })
  stopped-Packed p h = record {
    pages = omega (arith, h.pages, h.in_max);
    count = h.count;
    place = h.place;
    in_max = omega (arith, h.in_max);
    in_num = omega (arith, h.in_num);
    placed = h.placed;
  }

  -- The loop ends.
  pub pack-Packed :
      (fuel k : ℕ) (p : Packing)
      → Packed start max num p
      → num + 1 < fuel + p.req_pages
      → (q : Packing) × (pack rand max num fuel k p ≡ some q) × Packed start max num q
  unfolding pack
  pack-Packed zero k p h enough = absurd (omega (arith, h.in_num))
  pack-Packed (suc fuel) k p h enough =
      let stop = record p { req_pages = (p.req_pages + 1) % u32 - 1 } in
      elim (Bool-cases (ltb max ((p.req_pages + 1) % u32) || ltb num ((p.req_pages + 1) % u32))) [
        | inl full ↦ (stop, rw full refl, stopped-Packed p h)
        | inr more ↦
            elim (Bool-cases
              (not (p.log_addr % 2 == draw rand k % 2) && ltb max ((p.req_pages + 1) % u32 + 1))) [
                | inl tight ↦ (stop, rw (more, tight), stopped-Packed p h)
                | inr room ↦
                    let m : p.req_pages < max = ground (arith, h.in_max) in
                    let n : p.req_pages < num = ground (arith, h.in_max) in
                    let next = put (draw rand k) (
                      if p.log_addr % 2 == draw rand k % 2
                      then record p { req_pages = (p.req_pages + 1) % u32 }
                      else pad (record p { req_pages = (p.req_pages + 1) % u32 })) in
                    let (q, e, packed) =
                      pack-Packed fuel (k + 1) next (joined-Packed k p h m n (ground arith))
                        (omega (arith, joined-grows (draw rand k) p m)) in
                    (q, rw (more, room) e, packed)
              ]
      ]
