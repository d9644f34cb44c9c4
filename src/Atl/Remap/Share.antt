-- ===== src/Atl/Remap/Share.antt =====
-- The remap of all pairs of a header (__do_remap of ATLWrapper.cpp).
use shrd_simulator.Base.{
  ℕ, zero, suc, ◌-◌, ◌/◌, ◌≤◌, ◌<◌, ◌≡◌, ◌⊎◌, inl, inr, ◌+◌, refl, sym, ap, subst, ◌∙◌, Bool, true,
  false, Option, none, some, arith, ◌==◌, Bool-cases, ==_iff,
}
use shrd_simulator.Atl.Cache.State.{vc_max}
use shrd_simulator.Atl.Vpn.{WriteType}
use shrd_simulator.Atl.Ftl.{Ftl, core_pages}
use shrd_simulator.Atl.Ftl.Counts.{GcIdle}
use shrd_simulator.Atl.Ftl.Located.{MapOk}
use shrd_simulator.Atl.Remap.{RemapEntry, is_active, remap_pair, remap_loop, max_remap_entry}
use shrd_simulator.Atl.Remap.Page.{IsLog}
use shrd_simulator.Atl.Remap.Ready.{Ready, Used, Used-trans, fewer, nothing-Used}
use shrd_simulator.Atl.Remap.Moved.{Moved, remap_page-Moved}

-- The pages of the pair `i`, as pages of the core.
abbrev pub log_page : RemapEntry → ℕ → ℕ
log_page e i = e.t_addr i / 2

abbrev pub home_page : RemapEntry → ℕ → ℕ
home_page e i = e.o_addr i / 2

-- The pair `i` of a header concerns the core.
abbrev pub Active : (core : ℕ) → RemapEntry → ℕ → Type 0
Active core e i = (i < e.remap_count) × (is_active core e i ≡ true)

-- The pairs of a header lie in its arrays, and those that concern the core have pages of the core,
-- different pages of the log and different homes,
-- and no page is of both kinds.
pub record PairsApart (core : ℕ) (e : RemapEntry) : Type 0 where
  pub count : e.remap_count ≤ max_remap_entry
  pub pages : (i : ℕ) → Active core e i → (log_page e i < core_pages) × (home_page e i < core_pages)
  pub logs :
      (i j : ℕ)
      → Active core e i
      → Active core e j
      → (i == j) ≡ false
      → (log_page e i == log_page e j) ≡ false
  pub homes :
      (i j : ℕ)
      → Active core e i
      → Active core e j
      → (i == j) ≡ false
      → (home_page e i == home_page e j) ≡ false
  pub kinds :
      (i j : ℕ) → Active core e i → Active core e j → (log_page e i == home_page e j) ≡ false

-- The pages of the log have a place, from the pair `k` on.
abbrev pub LogsMapped : (core k : ℕ) → RemapEntry → Ftl → Type 0
LogsMapped core k e s =
    (i : ℕ)
    → k ≤ i
    → i < e.remap_count
    → is_active core e i ≡ true
    → (s.map_of (log_page e i) == vc_max) ≡ false

-- The blocks of the pages of the log wait for `c` remaps or more, and are in the list of their log.
abbrev pub LogsReady : WriteType → (core k c : ℕ) → RemapEntry → Ftl → Type 0
LogsReady ty core k c e s =
    (i : ℕ)
    → k ≤ i
    → i < e.remap_count
    → is_active core e i ≡ true
    → Ready ty s (s.map_of (log_page e i)) c

-- The homes from the pair `k` on have the places of their pages of the log, which have none, and the
-- other pages are where they were.
pub record Shared (core k : ℕ) (e : RemapEntry) (s u : Ftl) : Type 0 where
  pub homes :
      (i : ℕ)
      → k ≤ i
      → i < e.remap_count
      → is_active core e i ≡ true
      → u.map_of (home_page e i) ≡ s.map_of (log_page e i)
  pub logs :
      (i : ℕ)
      → k ≤ i
      → i < e.remap_count
      → is_active core e i ≡ true
      → u.map_of (log_page e i) ≡ vc_max
  pub others :
      (l : ℕ)
      → ((i : ℕ)
          → k ≤ i
          → i < e.remap_count
          → is_active core e i ≡ true
          → ((l == home_page e i) ≡ false) × ((l == log_page e i) ≡ false))
      → u.map_of l ≡ s.map_of l
  pub ok : MapOk u
  pub idle : GcIdle u

later : (k m i : ℕ) → m ≡ suc k → k ≤ i → (i ≡ k) ⊎ ((m ≤ i) × ((i == k) ≡ false))
later k m i e h = elim (Bool-cases (i == k)) [
  | inl same ↦ inl ((==_iff i k).0 same)
  | inr other ↦ inr (ground arith, other)
]

module _ (core k m : ℕ) (e : RemapEntry) (next : m ≡ suc k) (s : Ftl) where
  -- A pair that does not concern the core.
  skip-Shared : (u : Ftl) → is_active core e k ≡ false → Shared core m e s u → Shared core k e s u
  skip-Shared u idle h = record {
    homes = λ i p q r. elim (later k m i next p) [
      | inl at ↦ absurd (not_both (is_active core e k) (ap (is_active core e) (sym at) ∙ r) idle)
      | inr on ↦ h.homes i on.0 q r
    ];
    logs = λ i p q r. elim (later k m i next p) [
      | inl at ↦ absurd (not_both (is_active core e k) (ap (is_active core e) (sym at) ∙ r) idle)
      | inr on ↦ h.logs i on.0 q r
    ];
    others = λ l apart. h.others l (λ i p q r. apart i (omega (arith, next)) q r);
    ok = h.ok;
    idle = h.idle;
  }
    where
      not_both : (b : Bool) → b ≡ true → b ≡ false → ⊥
      not_both b p q = cc

  log_later :
      (t : Ftl) (i : ℕ)
      → PairsApart core e
      → Active core e k
      → Moved (log_page e k) (home_page e k) s t
      → Active core e i
      → (i == k) ≡ false
      → t.map_of (log_page e i) ≡ s.map_of (log_page e i)
  log_later t i pairs active moved r ne =
      moved.map_of (log_page e i) ∙ rw (pairs.kinds i k r active, pairs.logs i k r active ne) refl

  -- The pair `k`, and then those behind it.
  module _ (t u : Ftl) (pairs : PairsApart core e) (active : Active core e k)
      (moved : Moved (log_page e k) (home_page e k) s t) (h : Shared core m e t u) where
    kept :
        (l : ℕ)
        → ((i : ℕ)
            → m ≤ i
            → Active core e i
            → ((l == home_page e i) ≡ false) × ((l == log_page e i) ≡ false))
        → u.map_of l ≡ t.map_of l
    kept l apart = h.others l (λ i p q r. apart i p (q, r))

    step-Shared : Shared core k e s u
    step-Shared = record {
      homes = λ i p q r. elim (later k m i next p) [
        | inl at ↦
            ap (λ j. u.map_of (home_page e j)) at
            ∙ kept (home_page e k) (λ j pj rj. (
              pairs.homes k j active rj (less j pj),
              flip (log_page e j) (home_page e k) (pairs.kinds j k rj active),
            ))
            ∙ moved.map_of (home_page e k)
            ∙ rw ((==_iff (home_page e k) (home_page e k)).1 refl)
                (ap (λ j. s.map_of (log_page e j)) (sym at))
        | inr on ↦ h.homes i on.0 q r ∙ log_later t i pairs active moved (q, r) on.1
      ];
      logs = λ i p q r. elim (later k m i next p) [
        | inl at ↦
            ap (λ j. u.map_of (log_page e j)) at
            ∙ kept (log_page e k)
                (λ j pj rj. (pairs.kinds k j active rj, pairs.logs k j active rj (less j pj)))
            ∙ moved.map_of (log_page e k)
            ∙ rw (pairs.kinds k k active active, (==_iff (log_page e k) (log_page e k)).1 refl) refl
        | inr on ↦ h.logs i on.0 q r
      ];
      others = λ l apart.
          h.others l (λ i p q r. apart i (omega (arith, next)) q r)
          ∙ moved.map_of l
          ∙ rw
              (
                (apart k (omega arith) active.0 active.1).0,
                (apart k (omega arith) active.0 active.1).1,
              )
              refl;
      ok = h.ok;
      idle = h.idle;
    }
      where
        less : (j : ℕ) → m ≤ j → (k == j) ≡ false
        less j p = ground (arith, next)

        flip : (x y : ℕ) → (x == y) ≡ false → (y == x) ≡ false
        flip x y p = ground arith

beyond : (k m i : ℕ) → m ≡ suc k → m ≤ i → (i == k) ≡ false
beyond k m i e h = ground arith

nothing_left :
    (core k : ℕ) (e : RemapEntry) (s : Ftl)
    → e.remap_count ≤ k
    → MapOk s
    → GcIdle s
    → Shared core k e s s
nothing_left core k e s none_left ok idle = record {
  homes = λ i p q r. absurd (omega (arith, none_left));
  logs = λ i p q r. absurd (omega (arith, none_left));
  others = λ l apart. refl;
  ok = ok;
  idle = idle;
}

module _ (core : ℕ) (ty : WriteType) (e : RemapEntry) (is_log : IsLog ty)
    (pairs : PairsApart core e) where
  loop_step :
      (n : ℕ) (s t u : Ftl)
      → remap_pair core ty e (e.remap_count - suc n) s ≡ some t
      → remap_loop n core ty e t ≡ some u
      → remap_loop (suc n) core ty e s ≡ some u
  unfolding remap_loop
  loop_step n s t u first rest =
      ap (λ (o : Option Ftl). elim o [ none ↦ none | some x ↦ remap_loop n core ty e x ]) first
      ∙ rest

  -- The loop returns, and shares the places.
  pub remap_loop-Shared :
      (n : ℕ) (s : Ftl)
      → n ≤ e.remap_count
      → MapOk s
      → GcIdle s
      → LogsMapped core (e.remap_count - n) e s
      → LogsReady ty core (e.remap_count - n) n e s
      → (u : Ftl) × (remap_loop n core ty e s ≡ some u)
        × Shared core (e.remap_count - n) e s u
        × Used ty n s u
  unfolding remap_loop
  remap_loop-Shared zero s h ok idle mapped ready = (
    s,
    refl,
    nothing_left core (e.remap_count - 0) e s (omega arith) ok idle,
    nothing-Used ty 0 s,
  )
  remap_loop-Shared (suc n) s h ok idle mapped ready =
      let k = e.remap_count - suc n in
      let m = e.remap_count - n in
      let next : m ≡ suc k = omega arith in
      let inside : k < e.remap_count = omega arith in
      elim (Bool-cases (is_active core e k)) [
        | inl active ↦
            let (t, first, moved, used) =
              remap_page-Moved ty (log_page e k) (home_page e k) s is_log ok idle
                (pairs.kinds k k (inside, active) (inside, active))
                (mapped k (omega arith) inside active) (pairs.pages k (inside, active)).0
                (pairs.pages k (inside, active)).1
                (fewer ty s (s.map_of (log_page e k)) 1 (suc n) (omega arith)
                  (ready k (omega arith) inside active)) in
            let ready_still : LogsReady ty core m n e t = λ i p q r.
              subst (λ v. Ready ty t v n)
                (sym (
                  log_later core k m e next s t i pairs (inside, active) moved (q, r)
                    (beyond k m i next p)))
                (used (s.map_of (log_page e i)) n (
                  fewer ty s (s.map_of (log_page e i)) (n + 1) (suc n) (omega arith)
                    (ready i (omega (arith, next)) q r))) in
            let still : LogsMapped core m e t = λ i p q r.
              ap (λ x. x == vc_max)
                (log_later core k m e next s t i pairs (inside, active) moved (q, r)
                  (beyond k m i next p))
              ∙ mapped i (omega (arith, next)) q r in
            let (u, rest, shared, used_rest) =
              remap_loop-Shared n t (omega arith) moved.ok moved.idle still ready_still in
            (
              u,
              loop_step n s t u (rw active first) rest,
              step-Shared core k m e next s t u pairs (inside, active) moved shared,
              Used-trans ty 1 n (suc n) s t u (omega arith) used used_rest,
            )
        | inr idle_pair ↦
            let (u, rest, shared, used_rest) =
              remap_loop-Shared n s (omega arith) ok idle
                (λ i p q r. mapped i (omega (arith, next)) q r)
                (λ i p q r.
                  fewer ty s (s.map_of (log_page e i)) n (suc n) (omega arith)
                    (ready i (omega (arith, next)) q r)) in
            (
              u,
              loop_step n s s u (rw idle_pair refl) rest,
              skip-Shared core k m e next s u idle_pair shared,
              Used-trans ty 1 n (suc n) s s u (omega arith) (nothing-Used ty 1 s) used_rest,
            )
      ]
