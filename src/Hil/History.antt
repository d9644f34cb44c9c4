-- ===== src/Hil/History.antt =====
-- Any sequence of host requests, from the constructor on.
use shrd_simulator.Base.{
  ℕ, zero, suc, ◌+◌, ◌/◌, ◌%◌, ◌≡◌, refl, ◌∙◌, List, [], ◌∷◌, ◌++◌, append-nil, append_assoc, arith,
  ◌==◌, ltb, ◌&&◌, if◌then◌else◌,
}
use shrd_simulator.Config.{num_ftl_core, num_buff}
use shrd_simulator.Hil.State.{Buff, Hil, Run, ok, ◌>>=◌, Call, Reply}
use shrd_simulator.Hil.{new_buff, free_buffs, hil_init, write_lpn, read_lpn}
use shrd_simulator.Hil.Count.{held, sum_of, sum_of-append, banks_total, sum_below}
use shrd_simulator.Hil.Lines.{line, slot, pending, delivered}
use shrd_simulator.Hil.Invariant.{Inv, IsClean, Ensures, Ensures-bind, Ensures-mono, weights}
use shrd_simulator.Hil.Write.{Written, write_lpn-Written}
use shrd_simulator.Hil.Read.{Read, read_lpn-Read}

-- A host request: a write of a page with a sector bitmap and a content, or a read of a page.
pub data Request : Type 0 where
  writes : ℕ → ℕ → ℕ → Request
  reads : ℕ → Request

abbrev pub serve : (List Call → Reply) → Request → Hil → Run Hil
serve ftl (writes lpn bitmap d) s = write_lpn ftl lpn bitmap d s
serve ftl (reads lpn) s = read_lpn ftl lpn s

pub run : (List Call → Reply) → List Request → Hil → Run Hil
run ftl [] s = ok s
run ftl (r ∷ rs) s = serve ftl r s >>= run ftl rs

-- The writes of a line, in the order in which the host made them.
pub accepted : ℕ → ℕ → List Request → List (ℕ × ℕ)
accepted core k [] = []
accepted core k (writes lpn bitmap d ∷ rs) =
    (if (lpn % num_ftl_core == core) && (slot (lpn / num_ftl_core) == k)
      then (lpn / num_ftl_core, d) ∷ []
      else [])
    ++ accepted core k rs
accepted core k (reads lpn ∷ rs) = accepted core k rs

pub record Served (rs : List Request) (s t : Hil) : Type 0 where
  pub inv : Inv t
  pub same_buffers : (v : ℕ → ℕ) → held v t ≡ held v s
  pub lines : (core k : ℕ) → line core k t ≡ line core k s ++ accepted core k rs

run-Served :
    (ftl : List Call → Reply) (rs : List Request) (s : Hil)
    → Inv s
    → Ensures (Served rs s) (run ftl rs s)
unfolding run accepted
run-Served ftl [] s i = record { inv = i; same_buffers = λ v. refl; lines = λ c k. rw append-nil }
run-Served ftl (writes lpn bitmap d ∷ rs) s i =
    Ensures-bind (Written lpn d s) (Served (writes lpn bitmap d ∷ rs) s)
      (write_lpn ftl lpn bitmap d s) (run ftl rs) (write_lpn-Written ftl lpn bitmap d s i)
      λ a w.
        Ensures-mono (Served rs a) (Served (writes lpn bitmap d ∷ rs) s) (run ftl rs a)
          (λ t r. record {
            inv = r.inv;
            same_buffers = λ v. r.same_buffers v ∙ w.accepts.same_buffers v;
            lines = λ c k. r.lines c k ∙ (rw (w.accepts.lines c k) (rw append_assoc));
          })
          (run-Served ftl rs a w.accepts.inv)
run-Served ftl (reads lpn ∷ rs) s i =
    Ensures-bind (Read s) (Served (reads lpn ∷ rs) s) (read_lpn ftl lpn s) (run ftl rs)
      (read_lpn-Read ftl lpn s i)
      λ a w.
        Ensures-mono (Served rs a) (Served (reads lpn ∷ rs) s) (run ftl rs a)
          (λ t r. record {
            inv = r.inv;
            same_buffers = λ v. r.same_buffers v ∙ w.keeps.same_buffers v;
            lines = λ c k. r.lines c k ∙ (rw (w.keeps.same_lines c k));
          })
          (run-Served ftl rs a w.keeps.inv)

-- The buffers of the constructor.
free_buffs-sum : (v : ℕ → ℕ) (n : ℕ) → sum_of v (free_buffs (suc n)) ≡ sum_of v (free_buffs n) + v n
unfolding free_buffs sum_of
free_buffs-sum v n = omega (arith, sum_of-append v (free_buffs n) (new_buff n ∷ []))

pub free_buffs-size : (n : ℕ) → sum_of (λ _. 1) (free_buffs n) ≡ n
unfolding sum_of free_buffs
free_buffs-size zero = refl
free_buffs-size (suc n) = omega (arith, free_buffs-size n, free_buffs-sum (λ _. 1) n)

-- The number of buffers at an address.
abbrev pub at : ℕ → ℕ → ℕ
at a b = if b == a then 1 else 0

free_buffs-at : (a n : ℕ) → sum_of (at a) (free_buffs n) ≡ (if ltb a n then 1 else 0)
unfolding sum_of free_buffs
free_buffs-at a zero = ground arith
free_buffs-at a (suc n) = ground (arith, free_buffs-at a n, free_buffs-sum (at a) n)

IsClean-append : (ts us : List Buff) → IsClean ts → IsClean us → IsClean (ts ++ us)
IsClean-append [] us h k = k
IsClean-append (t ∷ ts) us h k = (h.0, h.1, IsClean-append ts us h.2 k)

pub free_buffs-IsClean : (n : ℕ) → IsClean (free_buffs n)
unfolding free_buffs
free_buffs-IsClean zero = tt
free_buffs-IsClean (suc n) =
    IsClean-append (free_buffs n) (new_buff n ∷ []) (free_buffs-IsClean n) (refl, refl, tt)

held_init : (v : ℕ → ℕ) → held v hil_init ≡ sum_of v (free_buffs num_buff)
unfolding held hil_init sum_of banks_total sum_below
held_init v = omega arith

hil_init-Inv : Inv hil_init
unfolding hil_init banks_total sum_below weights
hil_init-Inv = record {
  urgent_count = refl;
  normal_count = refl;
  clean = free_buffs-IsClean num_buff;
  banked = λ core bank. tt;
  urgents = λ core. tt;
  size = held_init (λ _. 1) ∙ free_buffs-size num_buff;
}

line_init : (core k : ℕ) → line core k hil_init ≡ []
unfolding line hil_init delivered pending
line_init core k = ground arith

pub record History (rs : List Request) (t : Hil) : Type 0 where
  pub inv : Inv t
  pub buffers : (a : ℕ) → held (at a) t ≡ (if ltb a num_buff then 1 else 0)
  pub lines : (core k : ℕ) → line core k t ≡ accepted core k rs

-- Whatever the FTL answers, a run of any requests from the constructor on does not run out of fuel,
-- and where it ends without an `_ASSERT`: the invariant holds, each of the 2560 buffers is in the
-- layer exactly once, and the writes of each core and queue, those sent followed by those that
-- wait, are the writes that the host made to it, in the host's order.
pub run-init-History :
    (ftl : List Call → Reply) (rs : List Request) → Ensures (History rs) (run ftl rs hil_init)
run-init-History ftl rs =
    Ensures-mono (Served rs hil_init) (History rs) (run ftl rs hil_init)
      (λ t s. record {
        inv = s.inv;
        buffers = λ a. s.same_buffers (at a) ∙ held_init (at a) ∙ free_buffs-at a num_buff;
        lines = λ c k. s.lines c k ∙ rw (line_init c k);
      })
      (run-Served ftl rs hil_init hil_init-Inv)
