-- ===== src/Atl/Buffer/Overwrite.antt =====
-- The overwrite of a page that is in a write buffer (write_page of ATLWrapper.cpp).
use shrd_simulator.Base.{
  ℕ, ◌+◌, ◌-◌, ◌*◌, ◌/◌, ◌^◌, ◌<◌, ◌≤◌, ◌≡◌, ◌≢◌, refl, subst, ◌∙◌, true, false, arith, ◌==◌, ltb,
  leb, if◌then◌else◌, Bool-cases, inl, inr,
}
use native.Mathlib.Nat.{pow-le-pow_right, div-eq_of_lt}
use shrd_simulator.Atl.ReadPage.{Sectors, check_bit, copy_loop-sector, sectors_per_page}
use shrd_simulator.Atl.Buffer.{PageWrite, is_high, high_bits, copy_into, sectors_per_lpn}

-- The sectors that the request has, as bits from 0, and the first of them in its buffer.
abbrev pub low_bits : PageWrite → ℕ
low_bits r = if is_high r then high_bits r else r.bitmap

abbrev pub first_sector : PageWrite → ℕ
first_sector r = if is_high r then sectors_per_lpn else 0

-- A small set of sectors has no bit behind its size.
no_bit : (bits i : ℕ) → bits < 256 → 8 ≤ i → check_bit bits i ≡ false
no_bit bits i h k =
    let large : 256 ≤ 2 ^ i = pow-le-pow_right {n = 2} (omega arith) {i = 8} {j = i} k in
    let quotient : bits / 2 ^ i ≡ 0 = div-eq_of_lt (omega (arith, large)) in rw quotient refl

-- A sector behind the start of the copy.
pub copy_into-behind :
    (bits : ℕ) (dst : Sectors) (from : ℕ) (src : Sectors) (first i : ℕ)
    → bits < 256
    → copy_into bits dst from src first (from + i)
      ≡ (if check_bit bits i then src (i + first) else dst (from + i))
copy_into-behind bits dst from src first i small =
    let place : from + i - from ≡ i = omega arith in
    let back : i + from ≡ from + i = omega arith in
    let whole : leb (sectors_per_page - 16) i ≡ true = ground arith in
    let behind : leb from (from + i) ≡ true = ground arith in
    rw (behind, place)
      (copy_loop-sector 16 bits (λ (j : ℕ). dst (j + from)) (λ (j : ℕ). src (j + first)) i
          (omega arith)
        ∙ rw back (elim (Bool-cases (ltb i sectors_per_page)) [
          | inl inside ↦ rw (inside, whole) refl
          | inr outside ↦ rw (outside, no_bit bits i small (ground arith)) refl
        ]))

-- A sector of the other half of a page.
pub copy_into-other :
    (bits : ℕ) (dst : Sectors) (src : Sectors) (first i o p : ℕ)
    → bits < 256
    → o < 2
    → p < 2
    → o ≢ p
    → i < 8
    → copy_into bits dst (p * 8) src first (o * 8 + i) ≡ dst (o * 8 + i)
copy_into-other bits dst src first i o p small ho hp ne h = elim (Bool-cases (o == 0)) [
  | inl first_half ↦
      let before : leb (p * 8) (o * 8 + i) ≡ false = ground (arith, ne) in rw before refl
  | inr second_half ↦
      let start : p * 8 ≡ 0 = ground (arith, ne) in
      let m = o * 8 + i in
      let none_set : check_bit bits m ≡ false = no_bit bits m small (ground arith) in
      let same : 0 + m ≡ m = omega arith in
      rw start (
        subst (λ (z : ℕ). copy_into bits dst 0 src first z ≡ dst z) same
          (copy_into-behind bits dst 0 src first m small ∙ rw none_set refl))
]
