-- ===== src/Hil/Tests.antt =====
-- HILWrapper.cpp on concrete inputs.
use shrd_simulator.Base.{
  ℕ, suc, ◌+◌, ◌≡◌, inl, inr, Bool-cases, leb, not, ◌++◌, ◌≤◌, ◌<◌, ◌≢◌, refl, ap, true, false,
  List, [], ◌∷◌, arith, ◌==◌, if◌then◌else◌, length, length-append,
}
use shrd_simulator.Config.{special_lpn_start}
use shrd_simulator.Hil.State.{Buff, Hil, Call, read, write, Reply}
use shrd_simulator.Hil.{new_buff, free_buffs, hil_init, write_lpn, read_lpn}
use shrd_simulator.Hil.Count.{held, sum_of, banks_total, sum_below}
use shrd_simulator.Hil.Invariant.{Inv, Ensures, weights, requests}
use shrd_simulator.Hil.Polite.{Polite, Returns, count}
use shrd_simulator.Hil.Progress.{Waits}
use shrd_simulator.Hil.Live.{write_lpn-Returns}
use shrd_simulator.Hil.Write.{Written, write_lpn-Written}
use shrd_simulator.Hil.Read.{Read, read_lpn-Read}
use shrd_simulator.Hil.History.{
  at, writes, reads, run, History, run-init-History, free_buffs-size, free_buffs-IsClean,
}

-- An FTL that keeps every second buffer until the next one comes, and gives both back then, in the
-- call that hands the second one over. It keeps no header.
abbrev answer : (mine : List ℕ) → Call → Reply
answer mine (read core lpn) = record { ret = false; freed = [] }
answer [] (write core lpn0 lpn1 bitmap addr d0 d1) = record {
  ret = not (leb special_lpn_start lpn0);
  freed = [];
}
answer (b ∷ bs) (write core lpn0 lpn1 bitmap addr d0 d1) = record {
  ret = not (leb special_lpn_start lpn0);
  freed = if leb special_lpn_start lpn0 then [] else addr ∷ b ∷ bs;
}

abbrev kept : (mine : List ℕ) → Call → List ℕ
kept mine (read core lpn) = mine
kept [] (write core lpn0 lpn1 bitmap addr d0 d1) =
    if leb special_lpn_start lpn0 then [] else addr ∷ []
kept (b ∷ bs) (write core lpn0 lpn1 bitmap addr d0 d1) =
    if leb special_lpn_start lpn0 then b ∷ bs else []

kept_after : (mine : List ℕ) → List Call → List ℕ
kept_after mine [] = mine
kept_after mine (c ∷ cs) = kept_after (kept mine c) cs

last_answer : (mine : List ℕ) → List Call → Reply
last_answer mine [] = record { ret = false; freed = [] }
last_answer mine (c ∷ []) = answer mine c
last_answer mine (c ∷ d ∷ cs) = last_answer (kept mine c) (d ∷ cs)

pairing : List Call → Reply
pairing h = last_answer [] h

kept_after-snoc :
    (h : List Call) (mine : List ℕ) (c : Call)
    → kept_after mine (h ++ c ∷ []) ≡ kept (kept_after mine h) c
unfolding kept_after
kept_after-snoc [] mine c = refl
kept_after-snoc (d ∷ h) mine c = kept_after-snoc h (kept mine d) c

last_answer-snoc :
    (h : List Call) (mine : List ℕ) (c : Call)
    → last_answer mine (h ++ c ∷ []) ≡ answer (kept_after mine h) c
unfolding last_answer kept_after
last_answer-snoc [] mine c = refl
last_answer-snoc (d ∷ []) mine c = refl
last_answer-snoc (d ∷ e ∷ h) mine c = last_answer-snoc (e ∷ h) (kept mine d) c

answer_law :
    (mine : List ℕ) (core lpn0 lpn1 bitmap addr d0 d1 a : ℕ)
    → let c = write core lpn0 lpn1 bitmap addr d0 d1 in
      count a (answer mine c).freed + count a (kept mine c)
      ≡ count a mine + (if (answer mine c).ret then at a addr else 0)
answer_law [] core lpn0 lpn1 bitmap addr d0 d1 a = elim (Bool-cases (leb special_lpn_start lpn0)) [
  | inl special ↦ rw special refl
  | inr normal ↦ rw normal (omega arith)
]
answer_law (b ∷ bs) core lpn0 lpn1 bitmap addr d0 d1 a =
    elim (Bool-cases (leb special_lpn_start lpn0)) [
      | inl special ↦ rw special (omega arith)
      | inr normal ↦ rw normal (omega arith)
    ]

answer_urgent :
    (mine : List ℕ) (core lpn0 lpn1 bitmap addr d0 d1 a : ℕ)
    → special_lpn_start ≤ lpn0
    → count a (answer mine (write core lpn0 lpn1 bitmap addr d0 d1)).freed ≤ count a mine
answer_urgent [] core lpn0 lpn1 bitmap addr d0 d1 a h = omega arith
answer_urgent (b ∷ bs) core lpn0 lpn1 bitmap addr d0 d1 a h =
    let special : leb special_lpn_start lpn0 ≡ true = ground (arith, h) in rw special (omega arith)

-- A header waits in the urgent queue of core 0.
abbrev header : Buff
header = record (new_buff 2559) { lpn0 = special_lpn_start; bitmap = 255; half0 = 7 }

abbrev one_urgent : Hil
one_urgent = record {
  free = free_buffs 2559;
  waiting = [];
  urgent = λ core. if core == 0 then header ∷ [] else [];
  banks = λ core bank. [];
  on_going_request = 1;
  on_going_urgent = 1;
  on_going_normal = 0;
  global_rr_cnt = 0;
  calls = [];
}

one_urgent-Inv : Inv one_urgent
unfolding banks_total sum_below weights held sum_of
one_urgent-Inv = record {
  urgent_count = refl;
  normal_count = refl;
  clean = free_buffs-IsClean 2559;
  banked = λ core bank. tt;
  urgents = λ core. ground arith;
  size = omega (arith, free_buffs-size 2559);
}

run-init-History_example :
    Ensures
      (History (writes 5 255 7 ∷ writes 28835840 255 9 ∷ reads 3 ∷ []))
      (run pairing (writes 5 255 7 ∷ writes 28835840 255 9 ∷ reads 3 ∷ []) hil_init)
run-init-History_example =
    run-init-History pairing (writes 5 255 7 ∷ writes 28835840 255 9 ∷ reads 3 ∷ [])

write_lpn-Written_example : Ensures (Written 5 7 one_urgent) (write_lpn pairing 5 255 7 one_urgent)
write_lpn-Written_example = write_lpn-Written pairing 5 255 7 one_urgent one_urgent-Inv

read_lpn-Read_example : Ensures (Read one_urgent) (read_lpn pairing 3 one_urgent)
read_lpn-Read_example = read_lpn-Read pairing 3 one_urgent one_urgent-Inv

one_request : requests one_urgent < 2
unfolding requests
one_request = omega arith

pairing-Polite : Polite pairing
unfolding pairing
pairing-Polite = record {
  holds = λ h a. count a (kept_after [] h);
  reads = λ h core lpn a. rw (kept_after-snoc h [] (read core lpn)) refl;
  writes = λ h core lpn0 lpn1 bitmap addr d0 d1 a.
      let c = write core lpn0 lpn1 bitmap addr d0 d1 in
      rw (last_answer-snoc h [] c, kept_after-snoc h [] c)
        (answer_law (kept_after [] h) core lpn0 lpn1 bitmap addr d0 d1 a);
  urgents = λ h core lpn0 lpn1 bitmap addr d0 d1 a special.
      rw (last_answer-snoc h [] (write core lpn0 lpn1 bitmap addr d0 d1))
        (answer_urgent (kept_after [] h) core lpn0 lpn1 bitmap addr d0 d1 a special);
}

some_free : (n : ℕ) → free_buffs (suc n) ≢ []
unfolding free_buffs
some_free n e = absurd (omega (arith, length-append (free_buffs n) (new_buff n ∷ []), ap length e))

one_urgent-Waits : Waits pairing pairing-Polite one_urgent
unfolding sum_of pairing-Polite kept_after
one_urgent-Waits a = refl

write_lpn-Returns_example :
    Returns
      (λ t. Waits pairing pairing-Polite t × Written 5 7 one_urgent t)
      (write_lpn pairing 5 255 7 one_urgent)
write_lpn-Returns_example =
    write_lpn-Returns pairing pairing-Polite 5 255 7 one_urgent one_urgent-Inv one_urgent-Waits
      (some_free 2558)
