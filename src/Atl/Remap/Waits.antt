-- ===== src/Atl/Remap/Waits.antt =====
-- do_remap of ATLWrapper.cpp: the headers of the journal that are older than the oldest twrite are
-- remapped, in the order in which they came, and the others wait.
use shrd_simulator.Base.{
  ℕ, zero, suc, ◌+◌, ◌-◌, ◌%◌, ◌≤◌, ◌<◌, ◌≡◌, refl, sym, ap, subst, ◌∙◌, false, Option, none, some,
  List, [], ◌∷◌, arith, ◌==◌, ltb, length, take, drop, if◌then◌else◌, Bool-cases, inl, inr,
}
use shrd_simulator.Atl.Cache.State.{vc_max}
use shrd_simulator.Atl.Vpn.{shrd_jn}
use shrd_simulator.Atl.Ftl.{Ftl}
use shrd_simulator.Atl.Ftl.Counts.{GcIdle}
use shrd_simulator.Atl.Ftl.Located.{MapOk}
use shrd_simulator.Atl.Remap.{
  RemapEntry, Remaps, drop_head, do_one_remap, do_remap, repeat_remap, remap_age, twrite_age,
  max_epoch_number, is_empty, epochs_since,
}
use shrd_simulator.Atl.Remap.Handler.{one_remap}
use shrd_simulator.Atl.Remap.Ready.{Ready, Used, fewer}
use shrd_simulator.Atl.Remap.Share.{
  PairsApart, LogsMapped, LogsReady, Active, Shared, log_page, home_page,
}

-- The pages of the log of `f` are none of the pages of `e`.
pub record HeadersApart (core : ℕ) (e f : RemapEntry) : Type 0 where
  pub pages :
      (i j : ℕ)
      → Active core e i
      → Active core f j
      → ((log_page f j == home_page e i) ≡ false) × ((log_page f j == log_page e i) ≡ false)

abbrev pub ApartFrom : (core : ℕ) → RemapEntry → List RemapEntry → Type 0
ApartFrom core e [] = Unit {0}
ApartFrom core e (f ∷ fs) = HeadersApart core e f × ApartFrom core e fs

abbrev pub AllApart : (core : ℕ) → List RemapEntry → Type 0
AllApart core [] = Unit {0}
AllApart core (e ∷ es) = PairsApart core e × ApartFrom core e es × AllApart core es

abbrev pub AllMapped : (core : ℕ) → List RemapEntry → Ftl → Type 0
AllMapped core [] s = Unit {0}
AllMapped core (e ∷ es) s = LogsMapped core 0 e s × AllMapped core es s

-- Headers that are remapped one after the other.
pub data SharedAll (core : ℕ) : List RemapEntry → Ftl → Ftl → Type 0 where
  no_more : {s : Ftl} → SharedAll core [] s s
  and_then :
      {e : RemapEntry} {es : List RemapEntry} {s t u : Ftl}
      → Shared core 0 e s t
      → SharedAll core es t u
      → SharedAll core (e ∷ es) s u

-- The epochs of the headers that wait, from `start` on.
abbrev pub Consecutive : (start : ℕ) → List RemapEntry → Type 0
Consecutive start [] = Unit {0}
Consecutive start (e ∷ es) = (e.epoch ≡ start % max_epoch_number) × Consecutive (start + 1) es

-- The remaps that some headers have.
abbrev pub remaps_of : List RemapEntry → ℕ
remaps_of [] = 0
remaps_of (e ∷ es) = e.remap_count + remaps_of es

-- The blocks of the pages of the log of some headers wait for `c` remaps or more.
abbrev pub AllReady : (core c : ℕ) → List RemapEntry → Ftl → Type 0
AllReady core c [] s = Unit {0}
AllReady core c (e ∷ es) s = LogsReady shrd_jn core 0 c e s × AllReady core c es s

fewer-AllReady :
    (core k c : ℕ) (es : List RemapEntry) (s : Ftl)
    → k ≤ c
    → AllReady core c es s
    → AllReady core k es s
fewer-AllReady core k c [] s h r = tt
fewer-AllReady core k c (e ∷ es) s h r = (
  λ i p q a. fewer shrd_jn s (s.map_of (log_page e i)) k c h (r.0 i p q a),
  fewer-AllReady core k c es s h r.1,
)

after-AllReady :
    (core c : ℕ) (e : RemapEntry) (es : List RemapEntry) (s u : Ftl)
    → ApartFrom core e es
    → Shared core 0 e s u
    → Used shrd_jn e.remap_count s u
    → AllReady core (c + e.remap_count) es s
    → AllReady core c es u
after-AllReady core c e [] s u apart h used r = tt
after-AllReady core c e (f ∷ fs) s u apart h used r = (
  λ j p q a.
      subst (λ v. Ready shrd_jn u v c)
        (sym (h.others (log_page f j) (λ i pi qi ai. apart.0.pages i j (qi, ai) (q, a))))
        (used (s.map_of (log_page f j)) c (r.0 j p q a)),
  after-AllReady core c e fs s u apart.1 h used r.1,
)

mapped_after :
    (core : ℕ) (e : RemapEntry) (es : List RemapEntry) (s u : Ftl)
    → ApartFrom core e es
    → Shared core 0 e s u
    → AllMapped core es s
    → AllMapped core es u
mapped_after core e [] s u apart h m = tt
mapped_after core e (f ∷ fs) s u apart h m = (
  λ j p q active.
      ap (λ x. x == vc_max)
        (h.others (log_page f j) (λ i pi qi ai. apart.0.pages i j (qi, ai) (q, active)))
      ∙ m.0 j p q active,
  mapped_after core e fs s u apart.1 h m.1,
)

-- The first `n` headers of the list have been remapped.
pub record Done (core n : ℕ) (es : List RemapEntry) (r v : Remaps) : Type 0 where
  pub remapped : SharedAll core (take n es) r.ftl v.ftl
  pub rest : v.jn_remaps ≡ drop n es
  pub free : v.free_remaps ≡ r.free_remaps + n
  pub headers : v.headers ≡ r.headers
  pub ok : MapOk v.ftl
  pub idle : GcIdle v.ftl

repeat_step :
    (n core : ℕ) (r t : Remaps) (o : Option Remaps)
    → do_one_remap core shrd_jn r ≡ some t
    → repeat_remap n core shrd_jn t ≡ o
    → repeat_remap (suc n) core shrd_jn r ≡ o
unfolding repeat_remap
repeat_step n core r t o first rest =
    ap (λ (x : Option Remaps). elim x [ none ↦ none | some y ↦ repeat_remap n core shrd_jn y ])
      first
    ∙ rest

repeat_remap-Done :
    (n core : ℕ) (es : List RemapEntry) (r : Remaps)
    → n ≤ length es
    → r.jn_remaps ≡ es
    → AllApart core es
    → AllMapped core es r.ftl
    → AllReady core (remaps_of es) es r.ftl
    → MapOk r.ftl
    → GcIdle r.ftl
    → (v : Remaps) × (repeat_remap n core shrd_jn r ≡ some v) × Done core n es r v
unfolding repeat_remap
repeat_remap-Done zero core es r h at apart mapped ready ok idle = (
  r,
  refl,
  record {
    remapped = no_more;
    rest = at;
    free = omega arith;
    headers = refl;
    ok = ok;
    idle = idle;
  },
)
repeat_remap-Done (suc n) core [] r h at apart mapped ready ok idle = absurd (omega arith)
repeat_remap-Done (suc n) core (e ∷ es) r h at apart mapped ready ok idle =
    let head_ready : LogsReady shrd_jn core 0 e.remap_count e r.ftl = λ i p q a.
      fewer shrd_jn r.ftl (r.ftl.map_of (log_page e i)) e.remap_count (remaps_of (e ∷ es))
        (omega arith) (ready.0 i p q a) in
    let (u, first, shared, used) =
      one_remap core shrd_jn e es r refl apart.0 ok idle mapped.0 head_ready at in
    let t = drop_head shrd_jn es u r in
    let (v, more, d) =
      repeat_remap-Done n core es t (omega arith) refl apart.2
        (mapped_after core e es r.ftl u apart.1 shared mapped.1)
        (after-AllReady core (remaps_of es) e es r.ftl u apart.1 shared used (
          fewer-AllReady core (remaps_of es + e.remap_count) (remaps_of (e ∷ es)) es r.ftl
            (omega arith) ready.1))
        shared.ok shared.idle in
    (
      v,
      repeat_step n core r t (some v) first more,
      record {
        remapped = and_then shared d.remapped;
        rest = d.rest;
        free = omega (arith, d.free);
        headers = d.headers;
        ok = d.ok;
        idle = d.idle;
      },
    )

epochs_since-add :
    (start n : ℕ)
    → n < max_epoch_number
    → epochs_since ((start + n) % max_epoch_number) (start % max_epoch_number) ≡ n
epochs_since-add start n h = ground arith

remap_age-length :
    (start now : ℕ) (es : List RemapEntry)
    → Consecutive start es
    → now ≡ (start + length es) % max_epoch_number
    → length es < max_epoch_number
    → remap_age now es ≡ length es
remap_age-length start now [] c e h = refl
remap_age-length start now (x ∷ es) c e h =
    ap (epochs_since now) c.0
    ∙ ap (λ k. epochs_since k (start % max_epoch_number)) e
    ∙ epochs_since-add start (length (x ∷ es)) h

-- The headers of the journal that are older than the oldest twrite: all if there is no twrite.
abbrev pub due : Remaps → ℕ
due r = length r.jn_remaps - twrite_age r.headers.jn_epoch r.headers.jn_twrites

due_rounds :
    {A : Type 0} (now age : ℕ) (es : List RemapEntry) (stop : A) (rounds : ℕ → A)
    → rounds 0 ≡ stop
    → remap_age now es ≡ length es
    → (if is_empty es
        then stop
        else if ltb (remap_age now es) age
        then stop
        else rounds (remap_age now es - age))
      ≡ rounds (length es - age)
due_rounds now age [] stop rounds z same = let done : 0 - age ≡ 0 = omega arith in rw done (sym z)
due_rounds now age (e ∷ es) stop rounds z same =
    rw same (elim (Bool-cases (ltb (suc (length es)) age)) [
      | inl later ↦
          let done : suc (length es) - age ≡ 0 = ground (arith, later) in rw (later, done) (sym z)
      | inr now_due ↦ rw now_due refl
    ])

do_remap-repeat :
    (core : ℕ) (r : Remaps)
    → remap_age r.headers.jn_epoch r.jn_remaps ≡ length r.jn_remaps
    → do_remap core shrd_jn r ≡ repeat_remap (due r) core shrd_jn r
unfolding do_remap repeat_remap
do_remap-repeat core r same =
    due_rounds r.headers.jn_epoch (twrite_age r.headers.jn_epoch r.headers.jn_twrites) r.jn_remaps
      (some r) (λ n. repeat_remap n core shrd_jn r) refl same

module _ (core start : ℕ) (r : Remaps) (apart : AllApart core r.jn_remaps)
    (mapped : AllMapped core r.jn_remaps r.ftl)
    (ready : AllReady core (remaps_of r.jn_remaps) r.jn_remaps r.ftl) (ok : MapOk r.ftl)
    (idle : GcIdle r.ftl) (epochs : Consecutive start r.jn_remaps)
    (now : r.headers.jn_epoch ≡ (start + length r.jn_remaps) % max_epoch_number)
    (few : length r.jn_remaps < max_epoch_number) where
  -- Where the headers of the journal that wait have consecutive epochs up to the present one and
  -- different pages of the core that have places in the log, in the write buffers or in blocks that are
  -- in the list of the log and wait for as many remaps as these headers have, do_remap remaps the headers that are older than the
  -- oldest twrite, in their order, frees them and lets the others wait; the pages stay in order.
  pub do_remap-Done :
      (v : Remaps) × (do_remap core shrd_jn r ≡ some v) × Done core (due r) r.jn_remaps r v
  do_remap-Done =
      let same = remap_age-length start r.headers.jn_epoch r.jn_remaps epochs now few in
      let (v, ran, d) =
        repeat_remap-Done (due r) core r.jn_remaps r (omega arith) refl apart mapped ready ok
          idle in
      (v, do_remap-repeat core r same ∙ ran, d)
