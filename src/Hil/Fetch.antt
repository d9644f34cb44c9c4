-- ===== src/Hil/Fetch.antt =====
-- The rounds of the fetching loop: each sends a buffer, so the loop ends.
use shrd_simulator.Base.{
  ℕ, zero, suc, ◌<◌, ◌≡◌, ◌≢◌, refl, ap, subst, ◌∙◌, inl, inr, List, [], arith, length, ◌==◌,
  Bool-cases,
}
use shrd_simulator.Hil.State.{Hil, Run, ◌>>=◌, Call, Reply}
use shrd_simulator.Hil.{send_urgent, send_normal, round, recount, fetch}
use shrd_simulator.Hil.Count.{held, banks_total-zero}
use shrd_simulator.Hil.Lines.{line}
use shrd_simulator.Hil.Invariant.{
  Inv, Keeps, Keeps-trans, Ensures, Ensures-bind, Ensures-mono, requests, requests-le, weights,
}
use shrd_simulator.Hil.Sends.{Sends, NoBanks, send_urgent-Sends, send_normal-Sends}

-- A round with something to do leaves less to do.
abbrev pub Less : Hil → Hil → Type 0
Less s u = Keeps s u × (requests u < requests s)

-- The end of the loop.
abbrev pub Done : Hil → Hil → Type 0
Done s u = Keeps s u × (requests u ≡ 0) × (u.on_going_request ≡ 0)

Less-both :
    (P Q : Hil → Type 0) (s a u : Hil)
    → (P s → Q s → ⊥)
    → Sends (P s) s a
    → Sends (Q a) a u
    → Less s u
Less-both P Q s a u busy (k, inl (p, e)) (l, inl (q, f)) = absurd (busy p (subst Q e q))
Less-both P Q s a u busy (k, inl (p, e)) (l, inr less) =
    (Keeps-trans k l, omega (arith, ap requests e))
Less-both P Q s a u busy (k, inr less) (l, inl (q, f)) =
    (Keeps-trans k l, omega (arith, ap requests f))
Less-both P Q s a u busy (k, inr less) (l, inr less') = (Keeps-trans k l, omega arith)

no_normal : (s : Hil) → Inv s → NoBanks s 0 → NoBanks s 1 → s.on_going_normal ≡ 0
unfolding weights
no_normal s i h k = i.normal_count ∙ banks_total-zero weights s.banks all
  where
    all : (core : ℕ) → core < 2 → (bank : ℕ) → bank < 8 → weights (s.banks core bank) ≡ 0
    all zero c bank b = ap weights (h bank b)
    all (suc zero) c bank b = ap weights (k bank b)
    all (suc (suc core)) c bank b = absurd (omega arith)

pub recount-Keeps : (s : Hil) → Inv s → Keeps s (recount s)
unfolding recount held line
recount-Keeps s i = record {
  inv = record {
    urgent_count = i.urgent_count;
    normal_count = i.normal_count;
    clean = i.clean;
    banked = i.banked;
    urgents = i.urgents;
    size = i.size;
  };
  same_buffers = λ v. refl;
  same_lines = λ c k. refl;
}

pub recount-requests :
    (s : Hil)
    → Inv s
    → ((recount s).on_going_request ≡ requests s) × (requests (recount s) ≡ requests s)
unfolding recount requests
recount-requests s i = (omega (arith, requests-le s i), refl)

module _ (ftl : List Call → Reply) where
  both :
      (P Q : Hil → Type 0) (first second : Hil → Run Hil) (s : Hil)
      → (P s → Q s → ⊥)
      → Ensures (Sends (P s) s) (first s)
      → ((a : Hil) → Inv a → Ensures (Sends (Q a) a) (second a))
      → Ensures (Less s) (first s >>= second)
  both P Q first second s busy h next =
      Ensures-bind (Sends (P s) s) (Less s) (first s) second h λ a k.
        Ensures-mono (Sends (Q a) a) (Less s) (second a) (λ u l. Less-both P Q s a u busy k l)
          (next a k.0.inv)

  pub urgent_round :
      (s : Hil)
      → Inv s
      → s.on_going_urgent ≢ 0
      → Ensures (Less s) (send_urgent ftl 0 s >>= send_urgent ftl 1)
  urgent_round s i busy =
      both (λ s. s.urgent 0 ≡ []) (λ s. s.urgent 1 ≡ []) (send_urgent ftl 0) (send_urgent ftl 1) s
        (λ h k. busy (omega (arith, i.urgent_count, ap length h, ap length k)))
        (send_urgent-Sends ftl 0 s i (omega arith))
        (λ a j. send_urgent-Sends ftl 1 a j (omega arith))

  pub round-Less : (s : Hil) → Inv s → requests s ≢ 0 → Ensures (Less s) (round ftl s)
  unfolding round requests
  round-Less s i busy = elim (Bool-cases (s.on_going_urgent == 0)) [
    | inl quiet ↦ rw quiet (
        both (λ s. NoBanks s 0) (λ s. NoBanks s 1) (send_normal ftl 0) (send_normal ftl 1) s
          (λ h k. busy (ground (arith, no_normal s i h k)))
          (send_normal-Sends ftl 0 s i (omega arith))
          (λ a j. send_normal-Sends ftl 1 a j (omega arith)))
    | inr urgent ↦ rw urgent (urgent_round s i (ground arith))
  ]

  -- With more fuel than queued requests, the fetching loop ends or stops in `_ASSERT`; when it ends,
  -- no request is left, and no buffer or write is lost or overtaken in its queue.
  pub fetch-Keeps : (n : ℕ) (s : Hil) → Inv s → requests s < n → Ensures (Done s) (fetch ftl n s)
  unfolding fetch
  fetch-Keeps zero s i h = absurd (omega arith)
  fetch-Keeps (suc n) s i h =
      let r = recount s in
      let (count, same) = recount-requests s i in
      let k = recount-Keeps s i in
      elim (Bool-cases (r.on_going_request == 0)) [
        | inl done ↦ rw done (k, ground arith, ground arith)
        | inr more ↦ rw more (
            Ensures-bind (Less r) (Done s) (round ftl r) (fetch ftl n)
              (round-Less r k.inv (ground arith))
              λ a l.
                Ensures-mono (Done a) (Done s) (fetch ftl n a)
                  (λ u d. (Keeps-trans (Keeps-trans k l.0) d.0, d.1, d.2))
                  (fetch-Keeps n a l.0.inv (omega arith)))
      ]
