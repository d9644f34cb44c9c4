-- ===== src/Hil/Send.antt =====
-- Sending: a buffer goes from the head of its queue to the FTL.
use shrd_simulator.Base.{
  ℕ, zero, suc, ◌+◌, ◌-◌, ◌%◌, ◌<◌, ◌≡◌, refl, ap, ◌∙◌, ◌⊎◌, inl, inr, Bool, true, false, List, [],
  ◌∷◌, ◌++◌, arith, length,
}
use shrd_simulator.Config.{u32}
use shrd_simulator.Hil.State.{Buff, Hil, ok, stuck, Call, Reply, update, update₂}
use shrd_simulator.Hil.{buff_init, after_urgent, send_urgent, release, send_bank, weight, call}
use shrd_simulator.Hil.Count.{sum_of, sum_of-snoc, banks_total-update, held}
use shrd_simulator.Hil.Lines.{line, line-send, queue}
use shrd_simulator.Hil.Invariant.{Inv, Keeps, IsClean, requests, requests-le, weights}
use shrd_simulator.Hil.Free.{
  with_lists, Freed, write_page-cases, IsClean-snoc, addr-buff_init, buff_free-Frees,
}

-- `t` went to the FTL, and then to `w` or `f`.
pub record Parted (s : Hil) (t : Buff) (w f : List Buff) : Type 0 where
  pub sums : (v : ℕ → ℕ) → sum_of v f + sum_of v w ≡ sum_of v s.free + sum_of v s.waiting + v t.addr
  pub clean : IsClean s.free → IsClean f

pub two-update :
    (m : List Buff → ℕ) (f : ℕ → List Buff) (core : ℕ) (ts : List Buff)
    → core < 2
    → m (update f core ts 0) + m (update f core ts 1) + m (f core) ≡ m (f 0) + m (f 1) + m ts
two-update m f zero ts h = omega arith
two-update m f (suc zero) ts h = omega arith
two-update m f (suc (suc core)) ts h = absurd (omega arith)

-- The number of urgent buffers fits its counter.
pub urgent_bound : (s : Hil) → Inv s → s.on_going_urgent < u32
unfolding requests
urgent_bound s i = omega (arith, requests-le s i)

abbrev pub urgent_sent : ℕ → Buff → List Buff → Hil → List Buff → List Buff → Hil
urgent_sent core t ts s w f = record s {
  urgent = update s.urgent core ts;
  on_going_urgent = (s.on_going_urgent + u32 - 1) % u32;
  calls = s.calls ++ call core t ∷ [];
  waiting = w;
  free = f;
}

pub normal_bound : (s : Hil) → Inv s → s.on_going_normal < u32
unfolding requests
normal_bound s i = omega (arith, requests-le s i)

abbrev pub bank_sent : ℕ → ℕ → Buff → List Buff → Hil → List Buff → List Buff → Hil
bank_sent core bank t ts s w f = record s {
  banks = update₂ s.banks core bank ts;
  on_going_normal = (s.on_going_normal + u32 - weight t) % u32;
  calls = s.calls ++ call core t ∷ [];
  waiting = w;
  free = f;
}

module _ (ftl : List Call → Reply) (core : ℕ) (s : Hil) (t : Buff) (ts : List Buff) where
  after_urgent-cases :
      (ret : Bool) (w f : List Buff)
      → let s' = record s { calls = s.calls ++ call core t ∷ [] } in
        Freed s' w f
        → (w' f' : List Buff) × (after_urgent core t ts (ret, with_lists s' w f)
            ≡ urgent_sent core t ts s w' f')
          × Parted s t w' f'
  unfolding after_urgent
  after_urgent-cases true w f h = (
    w ++ t ∷ [],
    f,
    refl,
    record { sums = λ v. omega (arith, h.sums v, sum_of-snoc v w t); clean = h.clean },
  )
  after_urgent-cases false w f h = (
    w,
    f ++ buff_init t ∷ [],
    refl,
    record {
      sums = λ v. omega (arith, h.sums v, sum_of-snoc v f (buff_init t), ap v (addr-buff_init t));
      clean = λ c. IsClean-snoc f t (h.clean c);
    },
  )

  pub send_urgent-cases :
      s.urgent core ≡ t ∷ ts
      → (send_urgent ftl core s ≡ stuck)
        ⊎ ((w f : List Buff) × (send_urgent ftl core s ≡ ok (urgent_sent core t ts s w f))
            × Parted s t w f)
  unfolding send_urgent
  send_urgent-cases e = elim (write_page-cases ftl core t s) [
    | inl stop ↦ inl (rw (e, send_urgent) (rw stop))
    | inr (w, f, run, h) ↦
        let (w', f', e', p) = after_urgent-cases (ftl (s.calls ++ call core t ∷ [])).ret w f h in
        inr (w', f', rw (e, send_urgent) (rw run (ap ok e')), p)
  ]

  pub urgent_sent-Keeps :
      Inv s
      → core < 2
      → s.urgent core ≡ t ∷ ts
      → (w f : List Buff) → Parted s t w f
      → Keeps s (urgent_sent core t ts s w f)
  unfolding held line sum_of
  urgent_sent-Keeps i c e w f p = record {
    inv = record {
      urgent_count = omega (
        arith,
        two-update length s.urgent core ts c,
        ap length e,
        i.urgent_count,
        urgent_bound s i,
      );
      normal_count = i.normal_count;
      clean = p.clean i.clean;
      banked = i.banked;
      urgents = λ c'. ground (arith, i.urgents c', i.urgents core);
      size = same (λ _. 1) ∙ i.size;
    };
    same_buffers = same;
    same_lines = lines;
  }
    where
      same : (v : ℕ → ℕ) → held v (urgent_sent core t ts s w f) ≡ held v s
      same v = omega (arith, p.sums v, two-update (sum_of v) s.urgent core ts c, ap (sum_of v) e)

      lines : (c k : ℕ) → line c k (urgent_sent core t ts s w f) ≡ line c k s
      lines c k =
          line-send c k core s.calls t (queue (urgent_sent core t ts s w f) c k) (queue s c k)
            (ground (arith, i.urgents core))

  release-cases :
      (ret : Bool) (u : Hil)
      → (release t (ret, u) ≡ stuck)
        ⊎ ((w f : List Buff) × (release t (ret, u) ≡ ok (with_lists u w f)) × Freed u w f)
  unfolding release
  release-cases true u = inr (u.waiting, u.free, refl, record { sums = λ v. refl; clean = λ h. h })
  release-cases false u = buff_free-Frees t.addr u

  pub send_bank-cases :
      (bank : ℕ)
      → s.banks core bank ≡ t ∷ ts
      → (send_bank ftl core bank s ≡ stuck)
        ⊎ ((w f : List Buff) × (send_bank ftl core bank s ≡ ok (bank_sent core bank t ts s w f))
            × Parted s t w f)
  unfolding send_bank
  send_bank-cases bank e =
      let s' = record s {
        banks = update₂ s.banks core bank ts;
        waiting = s.waiting ++ t ∷ [];
        on_going_normal = (s.on_going_normal + u32 - weight t) % u32;
      } in
      elim (write_page-cases ftl core t s') [
        | inl stop ↦ inl (rw (e, send_bank) (rw stop))
        | inr (w, f, run, h) ↦
            elim (release-cases (ftl (s.calls ++ call core t ∷ [])).ret
              (with_lists (record s' { calls = s.calls ++ call core t ∷ [] }) w f)) [
                | inl stop ↦ inl (rw (e, send_bank) (rw run stop))
                | inr (w', f', run', h') ↦ inr (
                  w',
                  f',
                  rw (e, send_bank) (rw run run'),
                  record {
                    sums = λ v. omega (arith, h.sums v, h'.sums v, sum_of-snoc v s.waiting t);
                    clean = λ c. h'.clean (h.clean c);
                  },
                )
              ]
      ]

  pub bank_sent-Keeps :
      (bank : ℕ)
      → Inv s
      → core < 2
      → bank < 8
      → s.banks core bank ≡ t ∷ ts
      → (w f : List Buff) → Parted s t w f
      → Keeps s (bank_sent core bank t ts s w f)
  unfolding held line sum_of weights
  bank_sent-Keeps bank i c b e w f p = record {
    inv = record {
      urgent_count = i.urgent_count;
      normal_count = omega (
        arith,
        banks_total-update weights s.banks core bank ts c b,
        ap weights e,
        i.normal_count,
        normal_bound s i,
      );
      clean = p.clean i.clean;
      banked = λ c' b'. ground (arith, i.banked c' b', i.banked core bank);
      urgents = i.urgents;
      size = same (λ _. 1) ∙ i.size;
    };
    same_buffers = same;
    same_lines = lines;
  }
    where
      same : (v : ℕ → ℕ) → held v (bank_sent core bank t ts s w f) ≡ held v s
      same v =
          omega (
            arith,
            p.sums v,
            banks_total-update (sum_of v) s.banks core bank ts c b,
            ap (sum_of v) e,
          )

      lines : (c k : ℕ) → line c k (bank_sent core bank t ts s w f) ≡ line c k s
      lines c k =
          line-send c k core s.calls t (queue (bank_sent core bank t ts s w f) c k) (queue s c k)
            (ground (arith, i.banked core bank))
