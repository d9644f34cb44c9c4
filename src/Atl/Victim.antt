-- ===== src/Atl/Victim.antt =====
-- get_vt_vblock: the block of a bank that the garbage collection takes.
--
-- `data_list` is the list of the block numbers, head first. `none` is RSP_ASSERT.
use shrd_simulator.Base.{
  ℕ, ◌+◌, ◌-◌, ◌*◌, ◌/◌, ◌%◌, ◌≤◌, ◌≡◌, refl, ◌⊎◌, inl, inr, Bool, true, false, Option, none, some,
  List, [], ◌∷◌, arith, ◌==◌, leb, ltb, if◌then◌else◌, not, ◌&&◌, ◌||◌, has, Bool-cases,
}
use shrd_simulator.Config.{pages_per_blk, planes_per_bank, lpage_per_ppage}
use shrd_simulator.Atl.Cache.State.{vc_max}

-- The part of NAND_bankstat that the choice reads.
pub record Bank : Type 0 where
  pub data_list : List ℕ
  pub vcount : ℕ → ℕ
  pub cur_write_vpn : ℕ
  pub cur_write_vpn_rw : ℕ
  pub cur_write_vpn_jn : ℕ
  pub cur_gc_vpn : ℕ

abbrev pub lpages_per_block : ℕ
lpages_per_block = pages_per_blk * planes_per_bank * lpage_per_ppage

pub get_vcount : Bank → ℕ → Option ℕ
get_vcount b block =
    if leb (b.vcount block) lpages_per_block || b.vcount block == vc_max
    then some (b.vcount block)
    else none

-- A block that is being written at this place.
abbrev pub is_open : (block vpn : ℕ) → Bool
is_open block vpn = block == vpn / pages_per_blk && not (vpn % pages_per_blk == pages_per_blk - 1)

unfoldable pub on_going : Bank → ℕ → Bool
on_going b block =
    is_open block b.cur_write_vpn
    || is_open block b.cur_write_vpn_rw
    || is_open block b.cur_write_vpn_jn
    || is_open block b.cur_gc_vpn

-- The loop over the data blocks: the block with the fewest valid pages, and their number.
pub scan : Bank → List ℕ → (result temp : ℕ) → Option (ℕ × ℕ)
scan b [] result temp = some (result, temp)
scan b (block ∷ blocks) result temp =
    let skipped = scan b blocks result temp in
    let taken = scan b blocks block (b.vcount block) in
    if on_going b block then skipped else elim (get_vcount b block) [
      | none ↦ none
      | some vcount ↦ if ltb vcount temp then taken else skipped
    ]

pub get_vt_vblock : Bank → Option ℕ
get_vt_vblock b = elim (scan b b.data_list vc_max lpages_per_block) [
  | none ↦ none
  | some (result, temp) ↦ if ltb (lpages_per_block - 8) temp then none else some result
]

-- A data block that is not being written.
abbrev pub Candidate : Bank → List ℕ → ℕ → Type 0
Candidate b blocks x = (has x blocks ≡ true) × (on_going b x ≡ false)

abbrev pub Counted : Bank → Type 0
Counted b = (x : ℕ) → (b.vcount x ≤ lpages_per_block) ⊎ (b.vcount x ≡ vc_max)

-- What the loop finds behind a block with `temp` valid pages.
record Scanned (b : Bank) (blocks : List ℕ) (result temp r t : ℕ) : Type 0 where
  found : ((r ≡ result) × (t ≡ temp)) ⊎ (Candidate b blocks r × (t ≡ b.vcount r))
  below : t ≤ temp
  least : (x : ℕ) → Candidate b blocks x → t ≤ b.vcount x

module _ (b : Bank) (counted : Counted b) where
  get_vcount-counted : (x : ℕ) → get_vcount b x ≡ some (b.vcount x)
  unfolding get_vcount
  get_vcount-counted x = ground (arith, counted x)

  scan-Scanned :
      (blocks : List ℕ) (result temp : ℕ)
      → (r t : ℕ) × (scan b blocks result temp ≡ some (r, t)) × Scanned b blocks result temp r t
  unfolding scan
  scan-Scanned [] result temp = (
    result,
    temp,
    refl,
    record { found = inl (refl, refl); below = omega arith; least = λ x c. ground arith },
  )
  scan-Scanned (block ∷ blocks) result temp = elim (Bool-cases (on_going b block)) [
    | inl busy ↦
        let (r, t, run, k) = scan-Scanned blocks result temp in
        (
          r,
          t,
          rw busy run,
          record {
            found = ground (arith, k.found);
            below = k.below;
            least = λ x c. ground (arith, k.least x, busy);
          },
        )
    | inr idle ↦ elim (Bool-cases (ltb (b.vcount block) temp)) [
      | inl fewer ↦
          let (r, t, run, k) = scan-Scanned blocks block (b.vcount block) in
          (
            r,
            t,
            rw (idle, get_vcount-counted block, fewer) run,
            record {
              found = ground (arith, k.found, idle);
              below = ground (arith, k.below);
              least = λ x c. ground (arith, k.least x, k.below);
            },
          )
      | inr more ↦
          let (r, t, run, k) = scan-Scanned blocks result temp in
          (
            r,
            t,
            rw (idle, get_vcount-counted block, more) run,
            record {
              found = ground (arith, k.found);
              below = k.below;
              least = λ x c. ground (arith, k.least x, k.below);
            },
          )
    ]
  ]

-- Where the counts of valid pages are in range and some data block that is not being written has at
-- least 8 pages that are not valid, the choice passes its assertions and gives a data block that is
-- not being written, and no such block has fewer valid pages.
pub get_vt_vblock-least :
    (b : Bank) (x : ℕ)
    → Counted b
    → Candidate b b.data_list x
    → b.vcount x + 8 ≤ lpages_per_block
    → (r : ℕ) × (get_vt_vblock b ≡ some r)
      × Candidate b b.data_list r
      × ((y : ℕ) → Candidate b b.data_list y → b.vcount r ≤ b.vcount y)
unfolding get_vt_vblock
get_vt_vblock-least b x counted c few =
    let (r, t, run, k) = scan-Scanned b counted b.data_list vc_max lpages_per_block in
    let small : t + 8 ≤ lpages_per_block = omega (arith, k.least x c) in
    let chosen : Candidate b b.data_list r × (t ≡ b.vcount r) = ground (arith, k.found) in
    (
      r,
      rw (run, get_vt_vblock) (ground arith),
      chosen.0,
      λ y d. omega (arith, k.least y d, chosen.1),
    )
