-- ===== src/Atl/Collect/Decrease.antt =====
-- decrease_vcount_of_vt_block of ATLWrapper.cpp takes the count from the victims, the head first.
use shrd_simulator.Base.{
  ℕ, ◌+◌, ◌-◌, ◌≤◌, ◌<◌, ◌≡◌, refl, true, false, some, List, [], ◌∷◌, arith, ltb, Bool-cases, inl,
  inr, has, IsDistinct,
}
use shrd_simulator.Atl.Cache.State.{set_at}
use shrd_simulator.Atl.Write.{counts_pages}
use shrd_simulator.Atl.Victim.{lpages_per_block}
use shrd_simulator.Atl.Collect.{GcBank, decrease_loop, decrease_vcount_of_vt_block}

-- The valid pages of the blocks of a list.
sum_counts : (ℕ → ℕ) → List ℕ → ℕ
sum_counts f [] = 0
sum_counts f (x ∷ xs) = f x + sum_counts f xs

sum_counts-other :
    (f : ℕ → ℕ) (x v : ℕ) (xs : List ℕ)
    → has x xs ≡ false
    → sum_counts (set_at f x v) xs ≡ sum_counts f xs
unfolding sum_counts
sum_counts-other f x v [] h = refl
sum_counts-other f x v (y ∷ ys) h = ground (arith, sum_counts-other f x v ys)

decrease_loop-sum :
    (xs : List ℕ) (count : ℕ) (f : ℕ → ℕ)
    → IsDistinct xs
    → ((x : ℕ) → has x xs ≡ true → f x ≤ lpages_per_block)
    → 0 < count
    → count ≤ sum_counts f xs
    → (g : ℕ → ℕ) × (decrease_loop xs count f ≡ some g)
      × (sum_counts g xs + count ≡ sum_counts f xs)
      × ((x : ℕ) → has x xs ≡ false → g x ≡ f x)
      × ((x : ℕ) → g x ≤ f x)
unfolding decrease_loop sum_counts
decrease_loop-sum [] count f d small some_pages enough = absurd (omega arith)
decrease_loop-sum (x ∷ xs) count f d small some_pages enough =
    let fits : f x ≤ 1024 = small x (ground arith) in
    let ok : counts_pages (f x) ≡ true = ground (arith, fits) in
    let other = λ (v : ℕ). sum_counts-other f x v xs d.0 in
    elim (Bool-cases (ltb (f x) count)) [
      | inl more ↦
          let (g, run, total, same, le) =
            decrease_loop-sum xs (count - f x) (set_at f x 0) d.1 (λ y h. ground (arith, small y))
              (ground arith) (ground (arith, other 0, enough)) in
          (
            g,
            rw (ok, more) run,
            ground (arith, total, other 0, same x),
            λ y h. ground (arith, same y),
            λ y. ground (arith, le y),
          )
      | inr less ↦
          let rest : counts_pages (f x - count) ≡ true = ground (arith, fits) in
          (
            set_at f x (f x - count),
            rw (ok, less, rest) refl,
            ground (arith, other (f x - count)),
            λ y h. ground arith,
            λ y. ground arith,
          )
    ]

-- Where the victims are distinct blocks with at most the pages of a block, and have together at least
-- the count, which is not 0, decrease_vcount_of_vt_block passes its assertions: the valid pages of
-- the victims are fewer by the count, no block's count grows, and the other blocks keep theirs.
decrease_vcount-sum :
    (count : ℕ) (b : GcBank)
    → IsDistinct b.victim_list
    → ((x : ℕ) → has x b.victim_list ≡ true → b.vcount x ≤ lpages_per_block)
    → 0 < count
    → count ≤ sum_counts b.vcount b.victim_list
    → (c : GcBank) × (decrease_vcount_of_vt_block count b ≡ some c)
      × (sum_counts c.vcount b.victim_list + count ≡ sum_counts b.vcount b.victim_list)
      × ((x : ℕ) → has x b.victim_list ≡ false → c.vcount x ≡ b.vcount x)
      × ((x : ℕ) → c.vcount x ≤ b.vcount x)
unfolding decrease_vcount_of_vt_block
decrease_vcount-sum count b d small some_pages enough =
    let (g, run, total, same, le) =
      decrease_loop-sum b.victim_list count b.vcount d small some_pages enough in
    (record b { vcount = g }, rw (run, decrease_vcount_of_vt_block) refl, total, same, le)
