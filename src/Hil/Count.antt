-- ===== src/Hil/Count.antt =====
-- Sums over the queues of HILWrapper.
use shrd_simulator.Base.{
  ℕ, zero, suc, ◌+◌, ◌≤◌, ◌<◌, ◌≡◌, ◌≢◌, refl, List, [], ◌∷◌, ◌++◌, arith, ℕ_discrete,
}
use shrd_simulator.Hil.State.{Buff, Hil, update₂}

unfoldable pub sum_below : ℕ → (ℕ → ℕ) → ℕ
sum_below zero f = 0
sum_below (suc n) f = f n + sum_below n f

sum_below-eq : (n : ℕ) (f g : ℕ → ℕ) → ((j : ℕ) → j < n → g j ≡ f j) → sum_below n g ≡ sum_below n f
unfolding sum_below
sum_below-eq zero f g h = refl
sum_below-eq (suc n) f g h =
    omega (arith, h n (omega arith), sum_below-eq n f g (λ j p. h j (omega arith)))

-- A change at one index.
sum_below-change :
    (n i : ℕ) (f g : ℕ → ℕ)
    → i < n
    → ((j : ℕ) → j ≢ i → g j ≡ f j)
    → sum_below n g + f i ≡ sum_below n f + g i
unfolding sum_below
sum_below-change zero i f g h e = absurd (omega arith)
sum_below-change (suc n) i f g h e = elim (ℕ_discrete n i) [
  | yes here ↦
      let same = sum_below-eq n f g (λ j p. e j (omega arith)) in
      let last : g n + f i ≡ f n + g i = rw here (omega arith) in omega (arith, same, last)
  | no there ↦ omega (arith, sum_below-change n i f g (omega arith) e, e n there)
]

pub sum_below-le : (n : ℕ) (f g : ℕ → ℕ) → ((j : ℕ) → f j ≤ g j) → sum_below n f ≤ sum_below n g
unfolding sum_below
sum_below-le zero f g h = omega arith
sum_below-le (suc n) f g h = omega (arith, h n, sum_below-le n f g h)

sum_below-zero : (n : ℕ) (f : ℕ → ℕ) → ((j : ℕ) → j < n → f j ≡ 0) → sum_below n f ≡ 0
unfolding sum_below
sum_below-zero zero f h = refl
sum_below-zero (suc n) f h =
    omega (arith, h n (omega arith), sum_below-zero n f (λ j p. h j (omega arith)))

-- The values of the buffers' addresses, added up.
unfoldable pub sum_of : (ℕ → ℕ) → List Buff → ℕ
sum_of v [] = 0
sum_of v (t ∷ ts) = v t.addr + sum_of v ts

pub sum_of-append :
    (v : ℕ → ℕ) (ts us : List Buff) → sum_of v (ts ++ us) ≡ sum_of v ts + sum_of v us
unfolding sum_of
sum_of-append v [] us = omega arith
sum_of-append v (t ∷ ts) us = omega (arith, sum_of-append v ts us)

pub sum_of-snoc :
    (v : ℕ → ℕ) (ts : List Buff) (t : Buff) → sum_of v (ts ++ t ∷ []) ≡ sum_of v ts + v t.addr
unfolding sum_of
sum_of-snoc v ts t = omega (arith, sum_of-append v ts (t ∷ []))

-- A measure of the bank queues of both cores.
unfoldable pub banks_total : (List Buff → ℕ) → (ℕ → ℕ → List Buff) → ℕ
banks_total m banks = sum_below 2 λ core. sum_below 8 λ bank. m (banks core bank)

pub banks_total-update :
    (m : List Buff → ℕ) (banks : ℕ → ℕ → List Buff) (core bank : ℕ) (ts : List Buff)
    → core < 2
    → bank < 8
    → banks_total m (update₂ banks core bank ts) + m (banks core bank) ≡ banks_total m banks + m ts
unfolding banks_total
banks_total-update m banks core bank ts h k =
    let old = λ (c b : ℕ). m (banks c b) in
    let new = λ (c b : ℕ). m (update₂ banks core bank ts c b) in
    let inner = sum_below-change 8 bank (old core) (new core) k (λ j n. ground arith) in
    let outer =
      sum_below-change 2 core (λ c. sum_below 8 (old c)) (λ c. sum_below 8 (new c)) h
        (λ j n. sum_below-eq 8 (old j) (new j) (λ b p. ground arith)) in
    let put : new core bank ≡ m ts = ground arith in omega (arith, inner, outer, put)

pub banks_total-zero :
    (m : List Buff → ℕ) (banks : ℕ → ℕ → List Buff)
    → ((core : ℕ) → core < 2 → (bank : ℕ) → bank < 8 → m (banks core bank) ≡ 0)
    → banks_total m banks ≡ 0
unfolding banks_total
banks_total-zero m banks h =
    sum_below-zero 2 _ (λ c p. sum_below-zero 8 (λ b. m (banks c b)) (λ b q. h c p b q))

-- All buffers of the layer, whatever queue they are in.
unfoldable pub held : (ℕ → ℕ) → Hil → ℕ
held v s =
    sum_of v s.free
    + sum_of v s.waiting
    + sum_of v (s.urgent 0)
    + sum_of v (s.urgent 1)
    + banks_total (sum_of v) s.banks
