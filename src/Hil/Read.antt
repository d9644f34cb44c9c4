-- ===== src/Hil/Read.antt =====
-- HIL_ReadLPN: it sends the urgent buffers, and keeps the lines of writes.
use shrd_simulator.Base.{
  ℕ, zero, suc, ◌+◌, ◌/◌, ◌%◌, ◌<◌, ◌≡◌, refl, ap, subst, ◌∙◌, inl, inr, List, [], ◌∷◌, ◌++◌, arith,
  append-nil, ◌==◌, Bool-cases,
}
use shrd_simulator.Config.{num_ftl_core}
use shrd_simulator.Hil.State.{Buff, Hil, ok, stuck, ◌>>=◌, Call, read, Reply}
use shrd_simulator.Hil.{read_page, flush_urgent, read_lpn, buff_init, send_urgent}
use shrd_simulator.Hil.Count.{held, sum_of, sum_of-append}
use shrd_simulator.Hil.Lines.{line, delivered, delivered-append}
use shrd_simulator.Hil.Free.{IsClean-snoc}
use shrd_simulator.Hil.Invariant.{
  Inv, IsClean, Keeps, Keeps-trans, Ensures, Ensures-bind, Ensures-mono, requests,
}
use shrd_simulator.Hil.Sends.{List-cases, Keeps-refl}
use shrd_simulator.Hil.Fetch.{Less, urgent_round}
use shrd_simulator.Hil.Write.{empty_of_length}

pub record Read (s t : Hil) : Type 0 where
  pub keeps : Keeps s t
  pub no_urgent : (core : ℕ) → core < 2 → t.urgent core ≡ []

-- The urgent queues are empty when their counter is 0.
quiet : (s : Hil) → Inv s → s.on_going_urgent ≡ 0 → (core : ℕ) → core < 2 → s.urgent core ≡ []
quiet s i e zero c = empty_of_length (s.urgent 0) (omega (arith, i.urgent_count))
quiet s i e (suc zero) c = empty_of_length (s.urgent 1) (omega (arith, i.urgent_count))
quiet s i e (suc (suc core)) c = absurd (omega arith)

module _ (ftl : List Call → Reply) where
  flush_urgent-Read :
      (n : ℕ) (s : Hil) → Inv s → requests s < n → Ensures (Read s) (flush_urgent ftl n s)
  unfolding flush_urgent
  flush_urgent-Read zero s i h = absurd (omega arith)
  flush_urgent-Read (suc n) s i h = elim (Bool-cases (s.on_going_urgent == 0)) [
    | inl done ↦ rw done (record { keeps = Keeps-refl i; no_urgent = quiet s i (ground arith) })
    | inr more ↦ rw more (
        Ensures-bind (Less s) (Read s) (send_urgent ftl 0 s >>= send_urgent ftl 1)
          (flush_urgent ftl n) (urgent_round ftl s i (ground arith))
          λ a l.
            Ensures-mono (Read a) (Read s) (flush_urgent ftl n a)
              (λ u d. record { keeps = Keeps-trans l.0 d.keeps; no_urgent = d.no_urgent })
              (flush_urgent-Read n a l.0.inv (omega arith)))
  ]

-- The buffer that a read borrows: it comes back cleared, at the end of the free list.
module _ (lpn : ℕ) (s : Hil) (t : Buff) (ts : List Buff) where
  abbrev after_read : Hil
  after_read = record s {
    free = ts ++ record (buff_init t) { rw = 1 } ∷ [];
    calls = s.calls ++ read (lpn % num_ftl_core) (lpn / num_ftl_core) ∷ [];
  }

  IsClean-rotate : IsClean ts → IsClean (ts ++ record (buff_init t) { rw = 1 } ∷ [])
  unfolding buff_init
  IsClean-rotate = IsClean-snoc ts (record t { rw = 1 })

  after_read-Keeps : Inv s → s.free ≡ t ∷ ts → Keeps s after_read
  unfolding held sum_of line delivered buff_init
  after_read-Keeps i e = record {
    inv = record {
      urgent_count = i.urgent_count;
      normal_count = i.normal_count;
      clean = IsClean-rotate (subst IsClean e i.clean).2;
      banked = i.banked;
      urgents = i.urgents;
      size = same (λ _. 1) ∙ i.size;
    };
    same_buffers = same;
    same_lines = λ c k. rw (delivered-append, append-nil);
  }
    where
      same : (v : ℕ → ℕ) → held v after_read ≡ held v s
      same v =
          omega (arith, ap (sum_of v) e, sum_of-append v ts (record (buff_init t) { rw = 1 } ∷ []))

abbrev SameUrgent : Hil → Hil → Type 0
SameUrgent s t = Keeps s t × (t.urgent ≡ s.urgent)

read_page-Keeps : (lpn : ℕ) (s : Hil) → Inv s → Ensures (SameUrgent s) (read_page lpn s)
read_page-Keeps lpn s i = elim (List-cases s.free) [
  | inl e ↦ rw (full e) tt
  | inr (t, ts, e) ↦ rw (borrowed t ts e) (after_read-Keeps lpn s t ts i e, refl)
]
  where
    full : s.free ≡ [] → read_page lpn s ≡ stuck
    full e = unfold read_page in rw (e, read_page)

    borrowed :
        (t : Buff) (ts : List Buff) → s.free ≡ t ∷ ts → read_page lpn s ≡ ok (after_read lpn s t ts)
    borrowed t ts e = unfold read_page in rw (e, read_page)

-- From a state with the invariant, HIL_ReadLPN does not run out of fuel, and where it ends without
-- an `_ASSERT`: the invariant holds, no buffer is lost, no write is lost or overtaken in its queue,
-- and the urgent queues of both cores are empty.
pub read_lpn-Read :
    (ftl : List Call → Reply) (lpn : ℕ) (s : Hil) → Inv s → Ensures (Read s) (read_lpn ftl lpn s)
unfolding read_lpn requests
read_lpn-Read ftl lpn s i =
    let fuel = s.on_going_urgent + s.on_going_normal + 1 in
    Ensures-bind (Read s) (Read s) (flush_urgent ftl fuel s) (read_page lpn)
      (flush_urgent-Read ftl fuel s i (omega arith))
      λ a r.
        Ensures-mono (SameUrgent a) (Read s) (read_page lpn a)
          (λ t k. record {
            keeps = Keeps-trans r.keeps k.0;
            no_urgent = λ c h. ap (λ (q : ℕ → List Buff). q c) k.1 ∙ r.no_urgent c h;
          })
          (read_page-Keeps lpn a r.keeps.inv)
