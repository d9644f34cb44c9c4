-- ===== src/Host/Pattern.antt =====
-- The contents of the pages: what do_twrite writes and what the checks expect.
use shrd_simulator.Base.{
  ℕ, zero, suc, ◌%◌, ◌/◌, ◌<◌, ◌≡◌, ◌≢◌, ◌↔◌, refl, sym, subst, inl, inr, true, arith, ◌==◌,
  Bool-cases,
}
use shrd_simulator.Config.{invalid_lpn}
use shrd_simulator.Host.{pattern, word, verify_word, verify_lpn, verify_below}

eq_of : (a b : ℕ) → (a == b) ≡ true → a ≡ b
eq_of a b h = ground arith

-- The check of a page accepts the page that do_twrite makes for some page of the host just when
-- both pages have the same last decimal digit.
pub verify_word-pattern :
    (lpn o : ℕ)
    → o ≢ invalid_lpn
    → (verify_word lpn (word (pattern o)) ≡ true) ↔ (lpn % 10 ≡ o % 10)
unfolding verify_word pattern
verify_word-pattern lpn o ne = ground arith

module _ (read_page : (core lpn : ℕ) → ℕ) where
  -- The check of all pages below a bound passes just when the page that the right core reads passes
  -- its check, for each of them.
  verify_below_iff :
      (n : ℕ)
      → (verify_below read_page n ≡ true)
        ↔ ((lpn : ℕ) → lpn < n → verify_word lpn (read_page (lpn % 2) (lpn / 2)) ≡ true)
  unfolding verify_below verify_lpn
  verify_below_iff zero = (λ e lpn h. absurd (omega arith), λ h. refl)
  verify_below_iff (suc n) =
      let (there, back) = verify_below_iff n in
      (
        λ e lpn h. elim (Bool-cases (lpn == n)) [
          | inl last ↦
              subst (λ m. verify_word m (read_page (m % 2) (m / 2)) ≡ true) (sym (eq_of lpn n last))
                (ground (arith, e))
          | inr before ↦ there (ground (arith, e)) lpn (ground arith)
        ],
        λ h. ground (arith, back (λ lpn lt. h lpn (omega arith)), h n (omega arith)),
      )
