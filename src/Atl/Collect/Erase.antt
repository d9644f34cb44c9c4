-- ===== src/Atl/Collect/Erase.antt =====
-- erase_victim_block of ATLWrapper.cpp: an empty victim goes to the free list, erased.
use shrd_simulator.Base.{
  some-inj, ℕ, ◌≡◌, refl, sym, ap, subst, ◌∙◌, true, false, some, List, [], ◌∷◌, ◌++◌, arith, ◌==◌,
  ◌||◌, ◌&&◌, Bool-cases, inl, inr, has, IsDistinct, ==_iff,
}
use shrd_simulator.Atl.Cache.State.{set_at, vc_max}
use shrd_simulator.Atl.Write.{BlockOp, erase_block, counts_pages, del_blk}
use shrd_simulator.Atl.Write.Nand.{Nand, run_ops, has-tail, tail-IsDistinct, del-head}
use shrd_simulator.Atl.Collect.{
  GcBank, erase_victim_block, first_empty, erase_victim, erased, freed, set_gc_block, no_blocks,
  Erased,
}

-- The free blocks of a bank: distinct, each counted as erased or as to be erased, and empty where it
-- is counted as erased.
pub record Blank (free : List ℕ) (vcount : ℕ → ℕ) (nand : Nand) : Type 0 where
  pub distinct : IsDistinct free
  pub counted : (y : ℕ) → has y free ≡ true → (vcount y == 0 || vcount y == vc_max) ≡ true
  pub blank : (y : ℕ) → has y free ≡ true → (vcount y == vc_max) ≡ true → nand y ≡ 0

first_empty-has : (xs : List ℕ) (f : ℕ → ℕ) (x : ℕ) → first_empty xs f ≡ some x → has x xs ≡ true
unfolding first_empty
first_empty-has [] f x e = cc
first_empty-has (y ∷ ys) f x e = elim (Bool-cases (f y == 0)) [
  | inl here ↦ let at : y ≡ x = some-inj y x (sym (rw here refl) ∙ e) in ground (arith, at)
  | inr later ↦ ground (arith, first_empty-has ys f x (sym (rw later refl) ∙ e))
]

del_blk-gone : (x : ℕ) (xs : List ℕ) → IsDistinct xs → has x (del_blk x xs) ≡ false
del_blk-gone x [] d = refl
del_blk-gone x (y ∷ ys) d = elim (Bool-cases (x == y)) [
  | inl e ↦ rw e (subst (λ (z : ℕ). has z ys ≡ false) (sym ((==_iff x y).0 e)) d.0)
  | inr ne ↦ rw ne (ground (arith, ne, del_blk-gone x ys d.1))
]

-- A block that is erased and counted so joins the free list at its tail.
joined-Blank :
    (free : List ℕ) (vcount : ℕ → ℕ) (nand : Nand) (x : ℕ)
    → Blank free vcount nand
    → has x free ≡ false
    → Blank (free ++ (x ∷ [])) (set_at vcount x vc_max) (set_at nand x 0)
joined-Blank free vcount nand x k away = record {
  distinct = tail-IsDistinct x free k.distinct away;
  counted = λ y h. ground (arith, has-tail y x free, k.counted y);
  blank = λ y h v. ground (arith, has-tail y x free, k.blank y);
}

no_blocks-has : (x : ℕ) (xs : List ℕ) → has x xs ≡ true → no_blocks xs ≡ false
no_blocks-has x [] h = absurd (ground arith)
no_blocks-has x (y ∷ ys) h = refl

-- The head of the free list leaves it.
rest-Blank :
    (y : ℕ) (rest : List ℕ) (vcount : ℕ → ℕ) (nand : Nand)
    → Blank (y ∷ rest) vcount nand
    → Blank rest vcount nand
rest-Blank y rest vcount nand k = record {
  distinct = k.distinct.1;
  counted = λ z h. k.counted z (ground (arith, h));
  blank = λ z h v. k.blank z (ground (arith, h)) v;
}

-- What the erase of the victim `x` makes of a bank.
pub record Freed (x : ℕ) (nand : Nand) (r : Erased) : Type 0 where
  pub next : GcBank
  pub ops : List BlockOp
  pub done : r ≡ some (1, next, ops)
  pub after : Nand
  pub runs : run_ops ops nand ≡ some after
  pub blank : Blank next.free_list next.vcount after
  pub there : (has x next.free_list ≡ true) × (after x ≡ 0)
  pub collects : (next.gc_blk == vc_max) ≡ false
  pub gone : has x next.victim_list ≡ false

zeroed-Blank :
    (free : List ℕ) (vcount : ℕ → ℕ) (nand : Nand) (y : ℕ)
    → Blank free vcount nand
    → Blank free vcount (set_at nand y 0)
zeroed-Blank free vcount nand y k = record {
  distinct = k.distinct;
  counted = k.counted;
  blank = λ z h v. ground (arith, k.blank z h v);
}

module _ (b : GcBank) (nand : Nand) (x : ℕ) (k : Blank b.free_list b.vcount nand)
    (away : has x b.free_list ≡ false) (distinct : IsDistinct b.victim_list) where
  -- The bank has a block of the garbage collection.
  present-Freed : (b.gc_blk == vc_max) ≡ false → Freed x nand (erase_victim x (erased x b))
  unfolding run_ops
  present-Freed present = record {
    next = freed x (erased x b);
    ops = erase_block x ∷ [];
    done = rw present refl;
    after = set_at nand x 0;
    runs = refl;
    blank = joined-Blank b.free_list b.vcount nand x k away;
    there = (ground (arith, has-tail x x b.free_list), ground arith);
    collects = present;
    gone = del_blk-gone x b.victim_list distinct;
  }

  -- The head of the free list becomes the block of the garbage collection.
  absent-Freed :
      (y : ℕ) (rest : List ℕ)
      → (b.gc_blk == vc_max) ≡ true
      → b.free_list ≡ y ∷ rest
      → (y == vc_max) ≡ false
      → Freed x nand (erase_victim x (erased x b))
  unfolding run_ops
  absent-Freed y rest absent e proper =
      let members : has x b.free_list ≡ (x == y) || has x rest = rw e refl in
      let y_x : (y == x) ≡ false = ground (arith, members, away) in
      let away_rest : has x rest ≡ false = ground (arith, members, away) in
      let y_free : has y b.free_list ≡ true = rw e (ground arith) in
      let left : del_blk y b.free_list ≡ rest = rw e (del-head y rest) in
      let whole : Blank (y ∷ rest) b.vcount nand =
        subst (λ (l : List ℕ). Blank l b.vcount nand) e k in
      let joined : Blank (del_blk y b.free_list ++ (x ∷ [])) (set_at b.vcount x vc_max)
          (set_at nand x 0) =
        subst (λ (l : List ℕ). Blank (l ++ (x ∷ [])) (set_at b.vcount x vc_max) (set_at nand x 0))
          (sym left)
          (joined-Blank rest b.vcount nand x (rest-Blank y rest b.vcount nand whole) away_rest) in
      let there : has x (del_blk y b.free_list ++ (x ∷ [])) ≡ true =
        ground (arith, has-tail x x (del_blk y b.free_list)) in
      let counted = k.counted y y_free in
      let ok : counts_pages (b.vcount y) ≡ true = ground (arith, counted) in
      elim (Bool-cases (b.vcount y == 0)) [
        | inl used ↦ record {
          next = freed x (set_gc_block y (erased x b));
          ops = erase_block x ∷ erase_block y ∷ [];
          done = rw (absent, e, y_x, ok, used) refl;
          after = set_at (set_at nand x 0) y 0;
          runs = refl;
          blank =
              zeroed-Blank (del_blk y b.free_list ++ (x ∷ [])) (set_at b.vcount x vc_max)
                (set_at nand x 0) y joined;
          there = (there, ground arith);
          collects = proper;
          gone = del_blk-gone x b.victim_list distinct;
        }
        | inr clean ↦ record {
          next = freed x (set_gc_block y (erased x b));
          ops = erase_block x ∷ [];
          done = rw (absent, e, y_x, ok, clean) refl;
          after = set_at nand x 0;
          runs = refl;
          blank = joined;
          there = (there, ground arith);
          collects = proper;
          gone = del_blk-gone x b.victim_list distinct;
        }
      ]

-- Where some victim has no valid page, and the bank has a block of the garbage collection or a free
-- block to take, erase_victim_block passes its assertions and returns 1: the first such victim is
-- erased, leaves the victim list and is free; the free blocks are again distinct and empty where
-- they are counted as erased; and the bank has a block of the garbage collection.
pub erase_victim_block-Freed :
    (b : GcBank) (nand : Nand) (x : ℕ)
    → Blank b.free_list b.vcount nand
    → IsDistinct b.victim_list
    → has x b.free_list ≡ false
    → first_empty b.victim_list b.vcount ≡ some x
    → ((y : ℕ) → has y b.free_list ≡ true → (y == vc_max) ≡ false)
    → (b.gc_blk == vc_max && no_blocks b.free_list) ≡ false
    → Freed x nand (erase_victim_block b)
unfolding erase_victim_block
erase_victim_block-Freed b nand x k distinct away found proper room =
    let some_victim : no_blocks b.victim_list ≡ false =
      no_blocks-has x b.victim_list (first_empty-has b.victim_list b.vcount x found) in
    rw (some_victim, found)
      (elim (Bool-cases (b.gc_blk == vc_max)) [
        | inr present ↦ present-Freed b nand x k away distinct present
        | inl absent ↦ by_free b.free_list refl absent
      ])
  where
    by_free :
        (free : List ℕ)
        → b.free_list ≡ free
        → (b.gc_blk == vc_max) ≡ true
        → Freed x nand (erase_victim x (erased x b))
    by_free [] e absent = absurd (ground (arith, sym (ap no_blocks e), room))
    by_free (y ∷ rest) e absent =
        absent-Freed b nand x k away distinct y rest absent e (proper y (rw e (ground arith)))
