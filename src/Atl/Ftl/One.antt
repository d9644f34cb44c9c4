-- ===== src/Atl/Ftl/One.antt =====
-- A core with one valid half page, the first one of the first block, for tests.
use shrd_simulator.Base.{ℕ, zero, suc, ◌<◌, ◌≡◌, Bool, arith, ◌==◌, ltb, if◌then◌else◌, ◌&&◌}
use shrd_simulator.Atl.Ftl.Counts.{valid_from, base_of}

pub one_valid :
    (k base : ℕ) → valid_from k base (λ x. x == 0) ≡ (if base == 0 && ltb 0 k then 1 else 0)
unfolding valid_from
one_valid zero base = ground arith
one_valid (suc k) base = ground (arith, one_valid k base)

abbrev pub one_if : Bool → ℕ
one_if b = if b then 1 else 0

pub one_count :
    (n b : ℕ) → n < 8 → one_if (n == 0 && b == 0) ≡ one_if (base_of n b == 0 && ltb 0 1024)
one_count n b h = ground arith
