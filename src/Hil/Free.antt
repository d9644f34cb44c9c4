-- ===== src/Hil/Free.antt =====
-- HIL_BuffFree, and the calls of RSP_WritePage, which free waiting buffers and touch nothing else.
use shrd_simulator.Base.{
  ℕ, ◌+◌, ◌≡◌, refl, ap, ◌∙◌, ◌⊎◌, inl, inr, some, List, [], ◌∷◌, ◌++◌, arith, Option-cases,
}
use shrd_simulator.Hil.State.{Buff, Hil, Run, ok, stuck, ◌>>=◌, Call, Reply}
use shrd_simulator.Hil.{buff_init, take_buff, buff_free, buff_frees, write_page, call}
use shrd_simulator.Hil.Count.{sum_of, sum_of-snoc}
use shrd_simulator.Hil.Invariant.{IsClean}

abbrev pub with_lists : Hil → List Buff → List Buff → Hil
with_lists s w f = record s { waiting = w; free = f }

-- What `free` and `waiting` hold together afterwards, and that what is free stays clean.
pub record Freed (s : Hil) (w f : List Buff) : Type 0 where
  pub sums : (v : ℕ → ℕ) → sum_of v f + sum_of v w ≡ sum_of v s.free + sum_of v s.waiting
  pub clean : IsClean s.free → IsClean f

abbrev pub Frees : Hil → Run Hil → Type 0
Frees s r = (r ≡ stuck) ⊎ ((w f : List Buff) × (r ≡ ok (with_lists s w f)) × Freed s w f)

take_buff-sum :
    (v : ℕ → ℕ) (a : ℕ) (ts : List Buff) (t : Buff) (us : List Buff)
    → take_buff a ts ≡ some (t, us)
    → sum_of v ts ≡ v t.addr + sum_of v us
unfolding take_buff sum_of
take_buff-sum v a [] t us e = cc
take_buff-sum v a (x ∷ ts) t us e = elim (Option-cases (take_buff a ts)) [
  | inl miss ↦ ground arith
  | inr (y, hit) ↦ ground (arith, take_buff-sum v a ts y.0 y.1 hit)
]

pub IsClean-snoc : (ts : List Buff) (t : Buff) → IsClean ts → IsClean (ts ++ buff_init t ∷ [])
unfolding buff_init
IsClean-snoc [] t h = (refl, refl, tt)
IsClean-snoc (x ∷ ts) t h = (h.0, h.1, IsClean-snoc ts t h.2)

pub addr-buff_init : (t : Buff) → (buff_init t).addr ≡ t.addr
unfolding buff_init
addr-buff_init t = refl

pub buff_free-Frees : (a : ℕ) (s : Hil) → Frees s (buff_free a s)
unfolding buff_free
buff_free-Frees a s = elim (Option-cases (take_buff a s.waiting)) [
  | inl e ↦ inl (rw (e, buff_free))
  | inr (y, e) ↦ inr (
    y.1,
    s.free ++ buff_init y.0 ∷ [],
    rw (e, buff_free),
    record {
      sums = λ v. omega (
        arith,
        take_buff-sum v a s.waiting y.0 y.1 e,
        sum_of-snoc v s.free (buff_init y.0),
        ap v (addr-buff_init y.0),
      );
      clean = IsClean-snoc s.free y.0;
    },
  )
]

pub Freed-trans :
    {s : Hil} {w f w' f' : List Buff} → Freed s w f → Freed (with_lists s w f) w' f' → Freed s w' f'
Freed-trans a b = record { sums = λ v. b.sums v ∙ a.sums v; clean = λ h. b.clean (a.clean h) }

-- A chain of releases.
pub Frees-bind :
    (s : Hil) (r : Run Hil) (k : Hil → Run Hil)
    → Frees s r
    → ((u : Hil) → Frees u (k u))
    → Frees s (r >>= k)
Frees-bind s r k (inl e) next = inl (rw e)
Frees-bind s r k (inr (w, f, e, h)) next = elim (next (with_lists s w f)) [
  | inl e' ↦ inl (rw e e')
  | inr (w', f', e', h') ↦ inr (w', f', rw e e', Freed-trans h h')
]

pub buff_frees-Frees : (as' : List ℕ) (s : Hil) → Frees s (buff_frees as' s)
unfolding buff_frees
buff_frees-Frees [] s = inr (s.waiting, s.free, refl, record { sums = λ v. refl; clean = λ h. h })
buff_frees-Frees (a ∷ rest) s =
    Frees-bind s (buff_free a s) (buff_frees rest) (buff_free-Frees a s)
      (λ u. buff_frees-Frees rest u)

-- The whole call of RSP_WritePage, and what it answers.
pub write_page-cases :
    (ftl : List Call → Reply) (core : ℕ) (t : Buff) (s : Hil)
    → let s' = record s { calls = s.calls ++ call core t ∷ [] } in
      (write_page ftl core t s ≡ stuck)
      ⊎ ((w f : List Buff) × (write_page ftl core t s
            ≡ ok ((ftl (s.calls ++ call core t ∷ [])).ret, with_lists s' w f))
          × Freed s' w f)
unfolding write_page
write_page-cases ftl core t s =
    elim (buff_frees-Frees (ftl (s.calls ++ call core t ∷ [])).freed
      (record s { calls = s.calls ++ call core t ∷ [] })) [
        | inl e ↦ inl (rw e)
        | inr (w, f, e, h) ↦ inr (w, f, rw e, h)
      ]
