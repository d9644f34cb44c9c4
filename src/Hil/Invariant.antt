-- ===== src/Hil/Invariant.antt =====
-- What holds of HILWrapper between its operations, and the runs that keep it.
use shrd_simulator.Base.{
  ℕ, ◌+◌, ◌*◌, ◌%◌, ◌≤◌, ◌<◌, ◌≡◌, refl, true, List, [], ◌∷◌, arith, length, ◌∙◌,
}
use shrd_simulator.Config.{invalid_lpn, special_lpn_start, num_perbank_queue, num_buff}
use shrd_simulator.Hil.State.{Buff, Hil, Run, ok, stuck, out_of_fuel, ◌>>=◌}
use shrd_simulator.Hil.{weight}
use shrd_simulator.Hil.Count.{sum_of, banks_total, held, sum_below}
use shrd_simulator.Hil.Lines.{line}

unfoldable pub weights : List Buff → ℕ
unfolding weight
weights [] = 0
weights (t ∷ ts) = weight t + weights ts

abbrev pub IsClean : List Buff → Type 0
IsClean [] = Unit {0}
IsClean (t ∷ ts) = (t.lpn0 ≡ invalid_lpn) × (t.lpn1 ≡ invalid_lpn) × IsClean ts

-- A buffer of a bank queue.
abbrev pub Banked : ℕ → Buff → Type 0
Banked bank t =
    (t.lpn0 < special_lpn_start)
    × (t.lpn0 % num_perbank_queue ≡ bank)
    × (t.partial ≡ true → t.lpn1 ≡ invalid_lpn)

abbrev pub AllBanked : ℕ → List Buff → Type 0
AllBanked bank [] = Unit {0}
AllBanked bank (t ∷ ts) = Banked bank t × AllBanked bank ts

abbrev pub AllUrgent : List Buff → Type 0
AllUrgent [] = Unit {0}
AllUrgent (t ∷ ts) = (special_lpn_start ≤ t.lpn0) × AllUrgent ts

pub record Inv (s : Hil) : Type 0 where
  pub urgent_count : s.on_going_urgent ≡ length (s.urgent 0) + length (s.urgent 1)
  pub normal_count : s.on_going_normal ≡ banks_total weights s.banks
  pub clean : IsClean s.free
  pub banked : (core bank : ℕ) → AllBanked bank (s.banks core bank)
  pub urgents : (core : ℕ) → AllUrgent (s.urgent core)
  pub size : held (λ _. 1) s ≡ num_buff

-- Neither a buffer nor a write is lost, made up or overtaken in its line.
pub record Keeps (s t : Hil) : Type 0 where
  pub inv : Inv t
  pub same_buffers : (v : ℕ → ℕ) → held v t ≡ held v s
  pub same_lines : (core k : ℕ) → line core k t ≡ line core k s

pub Keeps-trans : {s t u : Hil} → Keeps s t → Keeps t u → Keeps s u
Keeps-trans a b = record {
  inv = b.inv;
  same_buffers = λ v. b.same_buffers v ∙ a.same_buffers v;
  same_lines = λ c k. b.same_lines c k ∙ a.same_lines c k;
}

-- A run that does not get lost: it ends in a state with the property, or in `_ASSERT`.
abbrev pub Ensures : {A : Type 0} → (A → Type 0) → Run A → Type 0
Ensures P (ok a) = P a
Ensures P stuck = Unit {0}
Ensures P out_of_fuel = ⊥

pub Ensures-bind :
    {A B : Type 0} (P : A → Type 0) (Q : B → Type 0) (r : Run A) (k : A → Run B)
    → Ensures P r
    → ((a : A) → P a → Ensures Q (k a))
    → Ensures Q (r >>= k)
Ensures-bind P Q (ok a) k h next = next a h
Ensures-bind P Q stuck k h next = tt
Ensures-bind P Q out_of_fuel k h next = h

pub Ensures-mono :
    {A : Type 0} (P Q : A → Type 0) (r : Run A) → ((a : A) → P a → Q a) → Ensures P r → Ensures Q r
Ensures-mono P Q (ok a) f h = f a h
Ensures-mono P Q stuck f h = tt
Ensures-mono P Q out_of_fuel f h = h

unfoldable pub requests : Hil → ℕ
requests s = s.on_going_urgent + s.on_going_normal

weights-le : (ts : List Buff) → weights ts ≤ 2 * sum_of (λ _. 1) ts
unfolding weights sum_of
weights-le [] = omega arith
weights-le (t ∷ ts) = ground (arith, weights-le ts)

pub length-sum_of : (ts : List Buff) → length ts ≡ sum_of (λ _. 1) ts
unfolding sum_of
length-sum_of [] = refl
length-sum_of (t ∷ ts) = omega (arith, length-sum_of ts)

banks_weights-le :
    (banks : ℕ → ℕ → List Buff)
    → banks_total weights banks ≤ 2 * banks_total (sum_of (λ _. 1)) banks
unfolding banks_total sum_below
banks_weights-le banks = omega (arith, weights-le)

-- With the invariant, the two counters of queued requests sum to at most twice the number of
-- buffers, so that `on_going_request` cannot wrap around.
pub requests-le : (s : Hil) → Inv s → requests s ≤ 2 * num_buff
unfolding requests held
requests-le s i = omega (
  arith,
  banks_weights-le s.banks,
  i.urgent_count,
  i.normal_count,
  i.size,
  length-sum_of (s.urgent 0),
  length-sum_of (s.urgent 1),
)
