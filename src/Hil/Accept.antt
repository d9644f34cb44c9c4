-- ===== src/Hil/Accept.antt =====
-- What the first half of HIL_WriteLPN does: a write enters the queue of its line.
use shrd_simulator.Base.{
  ℕ, ◌-◌, ◌<◌, ◌≡◌, true, false, Bool, List, [], ◌∷◌, ◌++◌, append-nil, append_assoc, arith, ◌==◌,
  ◌&&◌, if◌then◌else◌,
}
use shrd_simulator.Config.{u32, invalid_lpn}
use shrd_simulator.Hil.State.{Buff, Hil}
use shrd_simulator.Hil.{fill_first}
use shrd_simulator.Hil.Count.{held}
use shrd_simulator.Hil.Lines.{line, slot, pending, pending-append, entries, queue}
use shrd_simulator.Hil.Invariant.{Inv, requests, requests-le}

-- The write stands at the end of its line, and all else is as before.
pub record Accepts (core lpn d : ℕ) (s t : Hil) : Type 0 where
  pub inv : Inv t
  pub same_buffers : (v : ℕ → ℕ) → held v t ≡ held v s
  pub lines :
      (c k : ℕ)
      → line c k t ≡ line c k s ++ (if (core == c) && (slot lpn == k) then (lpn, d) ∷ [] else [])

-- A queue that grows at its end.
pub line-grow :
    (c k : ℕ) (s t : Hil) (more : List (ℕ × ℕ))
    → t.calls ≡ s.calls
    → pending (queue t c k) ≡ pending (queue s c k) ++ more
    → line c k t ≡ line c k s ++ more
unfolding line
line-grow c k s t more e f = rw (e, f) (rw append_assoc)

pub queue-grow :
    (b : Bool) (old new : List Buff) (last : Buff) {more : List (ℕ × ℕ)}
    → new ≡ (if b then old ++ last ∷ [] else old)
    → pending (last ∷ []) ≡ more
    → pending new ≡ pending old ++ (if b then more else [])
queue-grow true old new last e f = rw (e, pending-append, f)
queue-grow false old new last e f = rw (e, append-nil)

-- The counters are far from their ends.
pub counters : (s : Hil) → Inv s → (s.on_going_urgent < u32 - 1) × (s.on_going_normal < u32 - 1)
unfolding requests
counters s i = (omega (arith, requests-le s i), omega (arith, requests-le s i))

-- A buffer that was free and holds one write.
pub entries_first :
    (t : Buff) (lpn bitmap d : ℕ)
    → t.lpn1 ≡ invalid_lpn
    → pending (fill_first t lpn bitmap d ∷ []) ≡ (lpn, d) ∷ []
unfolding pending entries fill_first
entries_first t lpn bitmap d e = rw e
