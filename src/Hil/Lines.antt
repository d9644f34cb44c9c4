-- ===== src/Hil/Lines.antt =====
-- The lines of writes through HILWrapper. A line belongs to a core and a slot: slots 0 to 7 are the
-- bank queues, slot 8 is the urgent queue.
use shrd_simulator.Base.{
  ℕ, ◌%◌, ◌≡◌, refl, List, [], ◌∷◌, ◌++◌, append_assoc, append-nil, ◌==◌, leb, Bool-cases, inl, inr,
  ◌&&◌, if◌then◌else◌,
}
use shrd_simulator.Config.{invalid_lpn, special_lpn_start, num_perbank_queue}
use shrd_simulator.Hil.State.{Buff, Hil, Call, write, read}
use shrd_simulator.Hil.{call}

-- The 4 KB writes of a buffer, each with its page number in the core and its content.
unfoldable pub entries : ℕ → ℕ → ℕ → ℕ → List (ℕ × ℕ)
entries lpn0 lpn1 half0 half1 =
    (lpn0, half0) ∷ (if lpn1 == invalid_lpn then [] else (lpn1, half1) ∷ [])

unfoldable pub pending : List Buff → List (ℕ × ℕ)
pending [] = []
pending (t ∷ ts) = entries t.lpn0 t.lpn1 t.half0 t.half1 ++ pending ts

abbrev pub slot : ℕ → ℕ
slot lpn = if leb special_lpn_start lpn then num_perbank_queue else lpn % num_perbank_queue

unfoldable pub of_call : ℕ → ℕ → Call → List (ℕ × ℕ)
of_call c k (write core lpn0 lpn1 bitmap addr half0 half1) =
    if (core == c) && (slot lpn0 == k) then entries lpn0 lpn1 half0 half1 else []
of_call c k (read core lpn) = []

unfoldable pub delivered : ℕ → ℕ → List Call → List (ℕ × ℕ)
unfolding of_call
delivered c k [] = []
delivered c k (x ∷ xs) = of_call c k x ++ delivered c k xs

abbrev pub queue : Hil → ℕ → ℕ → List Buff
queue s c k = if k == num_perbank_queue then s.urgent c else s.banks c k

-- What the FTL has been given on a line, followed by what still waits there.
unfoldable pub line : ℕ → ℕ → Hil → List (ℕ × ℕ)
line c k s = delivered c k s.calls ++ pending (queue s c k)

pub pending-append : (ts us : List Buff) → pending (ts ++ us) ≡ pending ts ++ pending us
unfolding pending
pending-append [] us = refl
pending-append (t ∷ ts) us = simp (pending-append ts us, append_assoc)

pub delivered-append :
    (c k : ℕ) (xs ys : List Call) → delivered c k (xs ++ ys) ≡ delivered c k xs ++ delivered c k ys
unfolding delivered
delivered-append c k [] ys = refl
delivered-append c k (x ∷ xs) ys = simp (delivered-append c k xs ys, append_assoc)

delivered_one :
    (c k core : ℕ) (t : Buff) (us : List Buff)
    → delivered c k (call core t ∷ []) ++ pending us
      ≡ pending (if (core == c) && (slot t.lpn0 == k) then t ∷ us else us)
unfolding delivered pending
delivered_one c k core t us = elim (Bool-cases ((core == c) && (slot t.lpn0 == k))) [
  | inl hit ↦ rw hit (rw append-nil)
  | inr miss ↦ rw miss
]

-- A buffer that is sent goes from the head of its queue to the end of what is delivered.
pub line-send :
    (c k core : ℕ) (calls : List Call) (t : Buff) (us ws : List Buff)
    → ws ≡ (if (core == c) && (slot t.lpn0 == k) then t ∷ us else us)
    → delivered c k (calls ++ call core t ∷ []) ++ pending us ≡ delivered c k calls ++ pending ws
line-send c k core calls t us ws e =
    rw (e, delivered-append, append_assoc) (rw (delivered_one c k core t us))
