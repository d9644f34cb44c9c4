-- ===== src/Hil/Sends.antt =====
-- Each send of a round: it takes a buffer from its queue, or the queue is empty.
use shrd_simulator.Base.{
  ℕ, zero, suc, ◌+◌, ◌-◌, ◌%◌, ◌≤◌, ◌<◌, ◌≡◌, ◌≢◌, refl, ap, subst, ℕ_discrete, ◌⊎◌, inl, inr, none,
  some, List, [], ◌∷◌, arith, length, Option-cases,
}
use shrd_simulator.Config.{u32, num_perbank_queue, special_lpn_start}
use shrd_simulator.Hil.State.{Buff, Hil, ok, Call, Reply}
use shrd_simulator.Hil.{send_urgent, send_bank, send_normal, pick_bank, weight}
use shrd_simulator.Hil.Count.{banks_total-update}
use shrd_simulator.Hil.Invariant.{Inv, AllBanked, Keeps, Ensures, Ensures-mono, requests, weights}
use shrd_simulator.Hil.Send.{
  send_urgent-cases, urgent_sent-Keeps, send_bank-cases, bank_sent-Keeps, urgent_bound,
  normal_bound,
}

pub List-cases : (ts : List Buff) → (ts ≡ []) ⊎ ((t : Buff) × (us : List Buff) × (ts ≡ t ∷ us))
List-cases [] = inl refl
List-cases (t ∷ ts) = inr (t, ts, refl)

pub Keeps-refl : {s : Hil} → Inv s → Keeps s s
Keeps-refl i = record { inv = i; same_buffers = λ v. refl; same_lines = λ c k. refl }

-- A send leaves the state alone where the queue is empty, and otherwise there is less to do.
abbrev pub Sends : Type 0 → Hil → Hil → Type 0
Sends Idle s u = Keeps s u × ((Idle × (u ≡ s)) ⊎ (requests u < requests s))

-- Of two queues with less than `u32` entries, taking one entry away lowers the counter.
urgent_left :
    (s : Hil) (core : ℕ) {t : Buff} {ts : List Buff}
    → Inv s
    → core < 2
    → s.urgent core ≡ t ∷ ts
    → (s.on_going_urgent + u32 - 1) % u32 < s.on_going_urgent
urgent_left s zero i c e = omega (arith, i.urgent_count, urgent_bound s i, ap length e)
urgent_left s (suc zero) i c e = omega (arith, i.urgent_count, urgent_bound s i, ap length e)
urgent_left s (suc (suc core)) i c e = absurd (omega arith)

pub weight_pos : (t : Buff) → t.lpn0 < special_lpn_start → 0 < weight t
unfolding weight
weight_pos t h = ground arith

normal_left :
    (s : Hil) (core bank : ℕ) {t : Buff} {ts : List Buff}
    → Inv s
    → core < 2
    → bank < 8
    → s.banks core bank ≡ t ∷ ts
    → (s.on_going_normal + u32 - weight t) % u32 < s.on_going_normal
unfolding weights
normal_left s core bank {t} {ts} i c b e =
    let change = banks_total-update weights s.banks core bank ts c b in
    let in_place = subst (AllBanked bank) e (i.banked core bank) in
    omega (arith, change, ap weights e, i.normal_count, normal_bound s i, weight_pos t in_place.0.0)

module _ (ftl : List Call → Reply) (core : ℕ) (s : Hil) (i : Inv s) (c : core < 2) where
  send_urgent_idle : s.urgent core ≡ [] → send_urgent ftl core s ≡ ok s
  unfolding send_urgent
  send_urgent_idle e = rw (e, send_urgent)

  pub send_urgent-Sends : Ensures (Sends (s.urgent core ≡ []) s) (send_urgent ftl core s)
  unfolding requests
  send_urgent-Sends = elim (List-cases (s.urgent core)) [
    | inl e ↦ rw (send_urgent_idle e) (Keeps-refl i, inl (e, refl))
    | inr (t, ts, e) ↦ elim (send_urgent-cases ftl core s t ts e) [
      | inl stop ↦ rw stop tt
      | inr (w, f, run, p) ↦ rw run (
        urgent_sent-Keeps ftl core s t ts i c e w f p,
        inr (omega (arith, urgent_left s core i c e)),
      )
    ]
  ]

  send_bank_idle : (bank : ℕ) → s.banks core bank ≡ [] → send_bank ftl core bank s ≡ ok s
  unfolding send_bank
  send_bank_idle bank e = rw (e, send_bank)

  send_bank-Sends :
      (bank : ℕ) → bank < 8 → Ensures (Sends (s.banks core bank ≡ []) s) (send_bank ftl core bank s)
  unfolding requests
  send_bank-Sends bank b = elim (List-cases (s.banks core bank)) [
    | inl e ↦ rw (send_bank_idle bank e) (Keeps-refl i, inl (e, refl))
    | inr (t, ts, e) ↦ elim (send_bank-cases ftl core s t ts bank e) [
      | inl stop ↦ rw stop tt
      | inr (w, f, run, p) ↦ rw run (
        bank_sent-Keeps ftl core s t ts bank i c b e w f p,
        inr (omega (arith, normal_left s core bank i c b e)),
      )
    ]
  ]

-- The round robin finds a bank with a buffer, or there is none on the core.
pick_bank-some :
    (s : Hil) (core n iter bank : ℕ)
    → pick_bank s core n iter ≡ some bank
    → (bank < 8) × (s.banks core bank ≢ [])
unfolding pick_bank
pick_bank-some s core zero iter bank e = cc
pick_bank-some s core (suc n) iter bank e =
    elim (List-cases (s.banks core ((s.global_rr_cnt + iter) % num_perbank_queue))) [
      | inl none_here ↦ pick_bank-some s core n (iter + 1) bank (rw (none_here, pick_bank) at e)
      | inr (t, ts, found) ↦ ground (arith, e)
    ]

pick_bank-none :
    (s : Hil) (core n iter : ℕ)
    → pick_bank s core n iter ≡ none
    → (j : ℕ) → iter ≤ j
    → j < iter + n
    → s.banks core ((s.global_rr_cnt + j) % num_perbank_queue) ≡ []
unfolding pick_bank
pick_bank-none s core zero iter e j h k = absurd (omega arith)
pick_bank-none s core (suc n) iter e j h k =
    elim (List-cases (s.banks core ((s.global_rr_cnt + iter) % num_perbank_queue))) [
      | inl none_here ↦ elim (ℕ_discrete j iter) [
        | yes here ↦ rw here none_here
        | no later ↦
            pick_bank-none s core n (iter + 1) (rw (none_here, pick_bank) at e) j (omega arith)
              (omega arith)
      ]
      | inr (t, ts, found) ↦ ground (arith, e)
    ]

abbrev pub NoBanks : Hil → ℕ → Type 0
NoBanks s core = (bank : ℕ) → bank < 8 → s.banks core bank ≡ []

no_banks : (s : Hil) (core : ℕ) → pick_bank s core num_perbank_queue 0 ≡ none → NoBanks s core
no_banks s core e bank b =
    let j : ℕ = (bank + 8 - s.global_rr_cnt % 8) % 8 in
    let here : (s.global_rr_cnt + j) % 8 ≡ bank = omega arith in
    subst (λ n. s.banks core n ≡ []) here
      (pick_bank-none s core num_perbank_queue 0 e j (omega arith) (omega arith))

module _ (ftl : List Call → Reply) where
  pub send_normal-Sends :
      (core : ℕ) (s : Hil)
      → Inv s
      → core < 2
      → Ensures (Sends (NoBanks s core) s) (send_normal ftl core s)
  unfolding send_normal
  send_normal-Sends core s i c = elim (Option-cases (pick_bank s core num_perbank_queue 0)) [
    | inl e ↦ rw (e, send_normal) (Keeps-refl i, inl (no_banks s core e, refl))
    | inr (bank, e) ↦
        let (b, busy) = pick_bank-some s core num_perbank_queue 0 bank e in
        rw (e, send_normal)
          (Ensures-mono (Sends (s.banks core bank ≡ []) s) (Sends (NoBanks s core) s)
            (send_bank ftl core bank s)
            (λ u h. (h.0, elim h.1 [ inl (idle, _) ↦ absurd (busy idle) | inr less ↦ inr less ]))
            (send_bank-Sends ftl core s i c bank b))
  ]
