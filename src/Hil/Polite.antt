-- ===== src/Hil/Polite.antt =====
-- When HIL_WriteLPN does not stop in `_ASSERT`: the FTL gives back only what it holds.
use shrd_simulator.Base.{
  ℕ, ◌+◌, ◌≤◌, ◌<◌, ◌≡◌, refl, inl, inr, some, List, [], ◌∷◌, ◌++◌, arith, ◌==◌, if◌then◌else◌,
  Bool-cases,
}
use shrd_simulator.Config.{special_lpn_start}
use shrd_simulator.Hil.State.{
  Buff, Hil, Run, ok, stuck, out_of_fuel, ◌>>=◌, Call, write, read, Reply,
}
use shrd_simulator.Hil.{take_buff, buff_free, buff_frees, buff_init}
use shrd_simulator.Hil.Count.{sum_of}
use shrd_simulator.Hil.Invariant.{Ensures}
use shrd_simulator.Hil.Free.{with_lists}
use shrd_simulator.Hil.History.{at}

-- How often an address is among the freed ones.
abbrev pub count : ℕ → List ℕ → ℕ
count a [] = 0
count a (b ∷ bs) = at a b + count a bs

-- What the layer relies on. `holds` tells how often the FTL holds a buffer after some calls: a call
-- that returns true leaves it the buffer, which it may give back in the same call, and a buffer that it
-- frees is one that it holds then. An urgent buffer is handed over after the call only.
pub record Polite (ftl : List Call → Reply) : Type 0 where
  pub holds : List Call → ℕ → ℕ
  pub reads : (h : List Call) (core lpn a : ℕ) → holds (h ++ read core lpn ∷ []) a ≡ holds h a
  pub writes :
      (h : List Call) (core lpn0 lpn1 bitmap addr d0 d1 a : ℕ)
      → count a (ftl (h ++ write core lpn0 lpn1 bitmap addr d0 d1 ∷ [])).freed
          + holds (h ++ write core lpn0 lpn1 bitmap addr d0 d1 ∷ []) a
        ≡ holds h a
          + (if (ftl (h ++ write core lpn0 lpn1 bitmap addr d0 d1 ∷ [])).ret then at a addr else 0)
  pub urgents :
      (h : List Call) (core lpn0 lpn1 bitmap addr d0 d1 a : ℕ)
      → special_lpn_start ≤ lpn0
      → count a (ftl (h ++ write core lpn0 lpn1 bitmap addr d0 d1 ∷ [])).freed ≤ holds h a

abbrev pub Returns : {A : Type 0} → (A → Type 0) → Run A → Type 0
Returns P (ok a) = P a
Returns P stuck = ⊥
Returns P out_of_fuel = ⊥

pub Returns-bind :
    {A B : Type 0} (P : A → Type 0) (Q : B → Type 0) (r : Run A) (k : A → Run B)
    → Returns P r
    → ((a : A) → P a → Returns Q (k a))
    → Returns Q (r >>= k)
Returns-bind P Q (ok a) k h next = next a h
Returns-bind P Q stuck k h next = h
Returns-bind P Q out_of_fuel k h next = h

pub Returns-both :
    {A : Type 0} (P Q : A → Type 0) (r : Run A)
    → Returns P r
    → Ensures Q r
    → Returns (λ a. P a × Q a) r
Returns-both P Q (ok a) h k = (h, k)
Returns-both P Q stuck h k = absurd h
Returns-both P Q out_of_fuel h k = absurd h

-- A buffer that is waiting is found.
take_buff-found :
    (a : ℕ) (ts : List Buff)
    → 0 < sum_of (at a) ts
    → (t : Buff) × (us : List Buff) × (take_buff a ts ≡ some (t, us))
      × ((b : ℕ) → sum_of (at b) us + at b a ≡ sum_of (at b) ts)
unfolding sum_of take_buff
take_buff-found a [] h = absurd (omega arith)
take_buff-found a (t ∷ ts) h = elim (Bool-cases (t.addr == a)) [
  | inl here ↦ (t, ts, rw here, λ b. ground arith)
  | inr later ↦
      let (u, us, e, sums) = take_buff-found a ts (ground arith) in
      (u, t ∷ us, rw (later, e), λ b. omega (arith, sums b))
]

pub buff_free-ok :
    (a : ℕ) (s : Hil)
    → 0 < sum_of (at a) s.waiting
    → (w f : List Buff) × (buff_free a s ≡ ok (with_lists s w f))
      × ((b : ℕ) → sum_of (at b) w + at b a ≡ sum_of (at b) s.waiting)
unfolding buff_free
buff_free-ok a s h =
    let (t, us, e, sums) = take_buff-found a s.waiting h in
    (us, s.free ++ buff_init t ∷ [], rw (e, buff_free), sums)

pub buff_frees-ok :
    (bs : List ℕ) (s : Hil)
    → ((a : ℕ) → count a bs ≤ sum_of (at a) s.waiting)
    → (w f : List Buff) × (buff_frees bs s ≡ ok (with_lists s w f))
      × ((b : ℕ) → sum_of (at b) w + count b bs ≡ sum_of (at b) s.waiting)
unfolding buff_frees
buff_frees-ok [] s h = (s.waiting, s.free, refl, λ b. omega arith)
buff_frees-ok (a ∷ bs) s h =
    let (w, f, e, sums) = buff_free-ok a s (ground (arith, h a)) in
    let (w', f', e', sums') =
      buff_frees-ok bs (with_lists s w f) (λ b. omega (arith, h b, sums b)) in
    (w', f', rw e e', λ b. omega (arith, sums b, sums' b))
