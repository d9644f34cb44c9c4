-- ===== src/Hil/Progress.antt =====
-- With a polite FTL and a free buffer, HIL_WriteLPN returns.
use shrd_simulator.Base.{
  ℕ, ◌+◌, ◌≤◌, ◌≡◌, subst, inl, inr, Bool, true, false, List, [], ◌∷◌, ◌++◌, arith, ◌<◌, ◌-◌, ◌%◌,
  Option-cases, if◌then◌else◌,
}
use shrd_simulator.Config.{u32, num_perbank_queue}
use shrd_simulator.Hil.State.{Buff, Hil, update₂, ok, ◌>>=◌, Call, Reply}
use shrd_simulator.Hil.{
  write_page, after_urgent, send_urgent, send_bank, send_normal, pick_bank, release, weight, call,
}
use shrd_simulator.Hil.Count.{sum_of, sum_of-snoc}
use shrd_simulator.Hil.Invariant.{Inv, AllUrgent}
use shrd_simulator.Hil.Free.{with_lists}
use shrd_simulator.Hil.History.{at}
use shrd_simulator.Hil.Sends.{List-cases}
use shrd_simulator.Hil.Polite.{Polite, Returns, count, buff_free-ok, buff_frees-ok}

module _ (ftl : List Call → Reply) (polite : Polite ftl) where
  open polite use {holds, writes, urgents}

  -- What waits in the layer is what the FTL holds.
  abbrev pub Waits : Hil → Type 0
  Waits s = (a : ℕ) → sum_of (at a) s.waiting ≡ holds s.calls a

  -- A call, with the buffers that it frees at hand.
  write_page-ok :
      (core : ℕ) (t : Buff) (s : Hil)
      → ((a : ℕ) → count a (ftl (s.calls ++ call core t ∷ [])).freed ≤ sum_of (at a) s.waiting)
      → (w f : List Buff) × (write_page ftl core t s
          ≡ ok (
            (ftl (s.calls ++ call core t ∷ [])).ret,
            with_lists (record s { calls = s.calls ++ call core t ∷ [] }) w f,
          ))
        × ((a : ℕ)
            → sum_of (at a) w + count a (ftl (s.calls ++ call core t ∷ [])).freed
              ≡ sum_of (at a) s.waiting)
  unfolding write_page
  write_page-ok core t s h =
      let (w, f, e, sums) =
        buff_frees-ok (ftl (s.calls ++ call core t ∷ [])).freed
          (record s { calls = s.calls ++ call core t ∷ [] }) h in
      (w, f, rw e, sums)

  law :
      (core : ℕ) (t : Buff) (s : Hil) (a : ℕ)
      → count a (ftl (s.calls ++ call core t ∷ [])).freed + holds (s.calls ++ call core t ∷ []) a
        ≡ holds s.calls a + (if (ftl (s.calls ++ call core t ∷ [])).ret then at a t.addr else 0)
  law core t s a = writes s.calls core t.lpn0 t.lpn1 t.bitmap t.addr t.half0 t.half1 a

  after_urgent-Waits :
      (core : ℕ) (t : Buff) (ts : List Buff) (s : Hil) (ret : Bool) (w f : List Buff)
      → ((a : ℕ)
          → sum_of (at a) w + (if ret then at a t.addr else 0)
            ≡ holds (s.calls ++ call core t ∷ []) a)
      → Waits (
          after_urgent core t ts
            (ret, with_lists (record s { calls = s.calls ++ call core t ∷ [] }) w f))
  unfolding after_urgent
  after_urgent-Waits core t ts s true w f h a = omega (arith, h a, sum_of-snoc (at a) w t)
  after_urgent-Waits core t ts s false w f h a = omega (arith, h a)

  pub send_urgent-Waits :
      (core : ℕ) (s : Hil) → Inv s → Waits s → Returns Waits (send_urgent ftl core s)
  send_urgent-Waits core s i h = elim (List-cases (s.urgent core)) [
    | inl e ↦ rw (idle e) h
    | inr (t, ts, e) ↦
        let urgent = (subst AllUrgent e (i.urgents core)).0 in
        let (w, f, run, sums) = write_page-ok core t s (λ a. omega (
          arith,
          h a,
          urgents s.calls core t.lpn0 t.lpn1 t.bitmap t.addr t.half0 t.half1 a urgent,
        )) in
        rw (busy t ts e) (
          rw run (
            after_urgent-Waits core t ts s (ftl (s.calls ++ call core t ∷ [])).ret w f
              (λ a. omega (arith, h a, sums a, law core t s a))))
  ]
    where
      idle : s.urgent core ≡ [] → send_urgent ftl core s ≡ ok s
      idle e = unfold send_urgent in rw (e, send_urgent)

      busy :
          (t : Buff) (ts : List Buff)
          → s.urgent core ≡ t ∷ ts
          → send_urgent ftl core s
            ≡ (write_page ftl core t s >>= λ r. ok (after_urgent core t ts r))
      busy t ts e = unfold send_urgent in rw (e, send_urgent)

  release-Waits :
      (t : Buff) (ret : Bool) (u : Hil)
      → ((a : ℕ) → sum_of (at a) u.waiting ≡ holds u.calls a + (if ret then 0 else at a t.addr))
      → Returns Waits (release t (ret, u))
  unfolding release
  release-Waits t true u h = λ a. omega (arith, h a)
  release-Waits t false u h =
      let here : 0 < sum_of (at t.addr) u.waiting = ground (arith, h t.addr) in
      let (w, f, run, sums) = buff_free-ok t.addr u here in rw run (λ a. omega (arith, h a, sums a))

  send_bank-Waits : (core bank : ℕ) (s : Hil) → Waits s → Returns Waits (send_bank ftl core bank s)
  unfolding send_bank
  send_bank-Waits core bank s h = elim (List-cases (s.banks core bank)) [
    | inl e ↦ rw (e, send_bank) h
    | inr (t, ts, e) ↦
        let s' : Hil = record s {
          banks = update₂ s.banks core bank ts;
          waiting = s.waiting ++ t ∷ [];
          on_going_normal = (s.on_going_normal + u32 - weight t) % u32;
        } in
        let room = λ (a : ℕ). sum_of-snoc (at a) s.waiting t in
        let le : (a : ℕ)
            → count a (ftl (s.calls ++ call core t ∷ [])).freed ≤ sum_of (at a) s'.waiting =
          λ a. ground (arith, h a, room a, law core t s a) in
        let (w, f, run, sums) = write_page-ok core t s' le in
        rw (e, send_bank)
          (rw run (
            release-Waits t (ftl (s.calls ++ call core t ∷ [])).ret
              (with_lists (record s' { calls = s.calls ++ call core t ∷ [] }) w f)
              (λ a. ground (arith, h a, room a, sums a, law core t s a))))
  ]

  pub send_normal-Waits : (core : ℕ) (s : Hil) → Waits s → Returns Waits (send_normal ftl core s)
  unfolding send_normal
  send_normal-Waits core s h = elim (Option-cases (pick_bank s core num_perbank_queue 0)) [
    | inl e ↦ rw (e, send_normal) h
    | inr (bank, e) ↦ rw (e, send_normal) (send_bank-Waits core bank s h)
  ]
