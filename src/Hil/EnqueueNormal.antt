-- ===== src/Hil/EnqueueNormal.antt =====
-- The normal writes of HIL_WriteLPN: they fill a half empty buffer, or begin a new one.
use shrd_simulator.Base.{
  ℕ, ◌+◌, ◌%◌, ◌<◌, ◌≡◌, refl, sym, ap, subst, ◌∙◌, inl, inr, none, some, true, List, [], ◌∷◌, ◌++◌,
  append-nil, append_assoc, arith, ◌==◌, ◌&&◌, if◌then◌else◌, Bool-cases, Option-cases,
}
use shrd_simulator.Config.{u32, num_perbank_queue, invalid_lpn, special_lpn_start}
use shrd_simulator.Hil.State.{Buff, Hil, ok, stuck, update₂}
use shrd_simulator.Hil.{fill_first, fill_second, last_partial, enqueue_normal, weight}
use shrd_simulator.Hil.Count.{held, sum_of, sum_of-snoc, banks_total-update}
use shrd_simulator.Hil.Lines.{slot, pending, pending-append, entries, queue}
use shrd_simulator.Hil.Invariant.{Inv, AllBanked, Banked, IsClean, Ensures, weights}
use shrd_simulator.Hil.Sends.{List-cases}
use shrd_simulator.Hil.Accept.{Accepts, line-grow, counters, entries_first}

weights-append : (ts us : List Buff) → weights (ts ++ us) ≡ weights ts + weights us
unfolding weights
weights-append [] us = omega arith
weights-append (t ∷ ts) us = omega (arith, weights-append ts us)

AllBanked-snoc :
    (bank : ℕ) (ts : List Buff) (t : Buff)
    → AllBanked bank ts
    → Banked bank t
    → AllBanked bank (ts ++ t ∷ [])
AllBanked-snoc bank [] t h k = (k, tt)
AllBanked-snoc bank (x ∷ ts) t h k = (h.0, AllBanked-snoc bank ts t h.1 k)

AllBanked-split :
    (bank : ℕ) (ts : List Buff) (t : Buff)
    → AllBanked bank (ts ++ t ∷ [])
    → AllBanked bank ts × Banked bank t
AllBanked-split bank [] t h = (tt, h.0)
AllBanked-split bank (x ∷ ts) t h = let k = AllBanked-split bank ts t h.1 in ((h.0, k.0), k.1)

last_partial-some :
    (ts front : List Buff) (l : Buff)
    → last_partial ts ≡ some (front, l)
    → (ts ≡ front ++ l ∷ []) × (l.partial ≡ true)
unfolding last_partial
last_partial-some [] front l e = cc
last_partial-some (t ∷ []) front l e = ground arith
last_partial-some (t ∷ u ∷ ts) front l e = elim (Option-cases (last_partial (u ∷ ts))) [
  | inl miss ↦ ground arith
  | inr (y, hit) ↦ ground (arith, last_partial-some (u ∷ ts) y.0 y.1 hit)
]

-- A new buffer counts one, and so does the second half of an old one.
weight_first :
    (t : Buff) (lpn bitmap d : ℕ)
    → lpn < special_lpn_start
    → t.lpn1 ≡ invalid_lpn
    → weights (record (fill_first t lpn bitmap d) { partial = true } ∷ []) ≡ 1
unfolding weights weight fill_first
weight_first t lpn bitmap d h e = ground arith

weight_second :
    (t : Buff) (lpn bitmap d : ℕ)
    → lpn < special_lpn_start
    → t.lpn1 ≡ invalid_lpn
    → weights (fill_second t lpn bitmap d ∷ []) ≡ weights (t ∷ []) + 1
unfolding weights weight fill_second
weight_second t lpn bitmap d h e = ground arith

two_entries :
    (t : Buff) (lpn bitmap d : ℕ)
    → lpn < special_lpn_start
    → t.lpn1 ≡ invalid_lpn
    → pending (fill_second t lpn bitmap d ∷ []) ≡ pending (t ∷ []) ++ (lpn, d) ∷ []
unfolding pending entries fill_second
two_entries t lpn bitmap d h e = ground arith

pending_second :
    (front : List Buff) (t : Buff) (lpn bitmap d : ℕ)
    → lpn < special_lpn_start
    → t.lpn1 ≡ invalid_lpn
    → pending (front ++ fill_second t lpn bitmap d ∷ [])
      ≡ pending (front ++ t ∷ []) ++ (lpn, d) ∷ []
pending_second front t lpn bitmap d h e =
    rw (pending-append, pending-append)
      (rw append_assoc (ap (◌++◌ (pending front)) (two_entries t lpn bitmap d h e)))

module _ (core lpn bitmap d : ℕ) (s : Hil) where
  abbrev bank_entered : List Buff → List Buff → Hil
  bank_entered new free = record s {
    banks = update₂ s.banks core (lpn % num_perbank_queue) new;
    on_going_normal = (s.on_going_normal + 1) % u32;
    free = free;
  }

  -- Any change of a bank queue that adds one write at its end.
  bank_entered-Accepts :
      (new free : List Buff)
      → Inv s
      → core < 2
      → lpn < special_lpn_start
      → weights new ≡ weights (s.banks core (lpn % num_perbank_queue)) + 1
      → AllBanked (lpn % num_perbank_queue) new
      → IsClean free
      → ((v : ℕ → ℕ)
          → sum_of v free + sum_of v new
            ≡ sum_of v s.free + sum_of v (s.banks core (lpn % num_perbank_queue)))
      → pending new ≡ pending (s.banks core (lpn % num_perbank_queue)) ++ (lpn, d) ∷ []
      → Accepts core lpn d s (bank_entered new free)
  unfolding held
  bank_entered-Accepts new free i c h heavier in_place clean sums longer = record {
    inv = record {
      urgent_count = i.urgent_count;
      normal_count = omega (
        arith,
        banks_total-update weights s.banks core bank new c (omega arith),
        i.normal_count,
        heavier,
        (counters s i).1,
      );
      clean = clean;
      banked = λ c' b. ground (arith, i.banked c' b);
      urgents = i.urgents;
      size = same (λ _. 1) ∙ i.size;
    };
    same_buffers = same;
    lines = λ c' k. line-grow c' k s (bank_entered new free) _ refl (grows c' k);
  }
    where
      bank : ℕ
      bank = lpn % num_perbank_queue

      same : (v : ℕ → ℕ) → held v (bank_entered new free) ≡ held v s
      same v =
          omega (arith, banks_total-update (sum_of v) s.banks core bank new c (omega arith), sums v)

      grows :
          (c' k : ℕ)
          → pending (queue (bank_entered new free) c' k)
            ≡ pending (queue s c' k)
              ++ (if (core == c') && (slot lpn == k) then (lpn, d) ∷ [] else [])
      grows c' k = elim (Bool-cases ((core == c') && (slot lpn == k))) [
        | inl hit ↦ rw hit (ground (arith, longer))
        | inr miss ↦ rw (miss, append-nil) (ap pending (ground arith))
      ]

  pub normal_second :
      (front : List Buff) (t : Buff)
      → last_partial (s.banks core (lpn % num_perbank_queue)) ≡ some (front, t)
      → enqueue_normal core lpn bitmap d s
        ≡ ok (bank_entered (front ++ fill_second t lpn bitmap d ∷ []) s.free)
  unfolding enqueue_normal
  normal_second front t e = rw (e, enqueue_normal)

  normal_full :
      last_partial (s.banks core (lpn % num_perbank_queue)) ≡ none
      → s.free ≡ []
      → enqueue_normal core lpn bitmap d s ≡ stuck
  unfolding enqueue_normal
  normal_full e f = rw (e, enqueue_normal) (ground arith)

  pub normal_first :
      (t : Buff) (ts : List Buff)
      → last_partial (s.banks core (lpn % num_perbank_queue)) ≡ none
      → s.free ≡ t ∷ ts
      → enqueue_normal core lpn bitmap d s
        ≡ ok (
            bank_entered
              (s.banks core (lpn % num_perbank_queue)
                ++ record (fill_first t lpn bitmap d) { partial = true } ∷ [])
              ts)
  unfolding enqueue_normal
  normal_first t ts e f = rw (e, enqueue_normal) (ground arith)

  pub enqueue_normal-Accepts :
      Inv s
      → core < 2
      → lpn < special_lpn_start
      → Ensures (Accepts core lpn d s) (enqueue_normal core lpn bitmap d s)
  unfolding sum_of fill_first fill_second pending
  enqueue_normal-Accepts i c h = elim (Option-cases (last_partial old)) [
    | inr (y, e) ↦ rw (normal_second y.0 y.1 e) (second y.0 y.1 (last_partial-some old y.0 y.1 e))
    | inl e ↦ elim (List-cases s.free) [
      | inl f ↦ rw (normal_full e f) tt
      | inr (t, ts, f) ↦ rw (normal_first t ts e f) (first t ts f)
    ]
  ]
    where
      bank : ℕ
      bank = lpn % num_perbank_queue

      old : List Buff
      old = s.banks core bank

      first :
          (t : Buff) (ts : List Buff)
          → s.free ≡ t ∷ ts
          → Accepts core lpn d s
              (bank_entered (old ++ record (fill_first t lpn bitmap d) { partial = true } ∷ []) ts)
      first t ts f =
          let last : Buff = record (fill_first t lpn bitmap d) { partial = true } in
          let clean = subst IsClean f i.clean in
          bank_entered-Accepts (old ++ last ∷ []) ts i c h
            (omega (arith, weights-append old (last ∷ []), weight_first t lpn bitmap d h clean.1))
            (AllBanked-snoc bank old last (i.banked core bank) (h, refl, λ _. clean.1)) clean.2
            (λ v. omega (arith, sum_of-snoc v old last, ap (sum_of v) f))
            (pending-append old (last ∷ [])
              ∙ ap (◌++◌ (pending old)) (entries_first t lpn bitmap d clean.1))

      second :
          (front : List Buff) (t : Buff)
          → (old ≡ front ++ t ∷ []) × (t.partial ≡ true)
          → Accepts core lpn d s (bank_entered (front ++ fill_second t lpn bitmap d ∷ []) s.free)
      second front t (e, half) =
          let new : Buff = fill_second t lpn bitmap d in
          let (others, mine) =
            AllBanked-split bank front t (subst (AllBanked bank) e (i.banked core bank)) in
          let unused = mine.2 half in
          bank_entered-Accepts (front ++ new ∷ []) s.free i c h
            (omega (
              arith,
              weights-append front (new ∷ []),
              weights-append front (t ∷ []),
              weight_second t lpn bitmap d h unused,
              ap weights e,
            ))
            (AllBanked-snoc bank front new others (mine.0, mine.1, λ no. cc)) i.clean
            (λ v. omega (arith, sum_of-snoc v front new, sum_of-snoc v front t, ap (sum_of v) e))
            (pending_second front t lpn bitmap d h unused
              ∙ ap (λ (q : List Buff). pending q ++ (lpn, d) ∷ []) (sym e))
