-- ===== src/Atl/Remap/Moved.antt =====
-- The remap of one page keeps every page in its place or moves it, and loses none (__do_remap of
-- ATLWrapper.cpp).
use shrd_simulator.Base.{
  ℕ, ◌≤◌, ◌<◌, ◌≡◌, ◌⊎◌, inl, inr, refl, sym, ap, subst, ◌∙◌, Bool, true, false, Option, none, some,
  ◌+◌, ltb, arith, ◌==◌, if◌then◌else◌, Bool-cases, ==_iff,
}
use shrd_simulator.Config.{invalid_lpn}
use shrd_simulator.Atl.Cache.State.{set_at, vc_max, num_pvpn, write_buffer_bit}
use shrd_simulator.Atl.Vpn.{WriteType}
use shrd_simulator.Atl.Ftl.{
  ◌>>=◌, Ftl, held, with_entry, set_vpn, get_vpn, may_hold, core_pages, count_of,
}
use shrd_simulator.Atl.Ftl.Counts.{CountsOk, CountOk, GcIdle, valid_from, base_of}
use shrd_simulator.Atl.Ftl.Located.{MapOk, Located}
use shrd_simulator.Atl.Remap.{remap_page, remap_from, leave_log, leave_home}
use shrd_simulator.Atl.Remap.Ready.{Ready, Used}
use shrd_simulator.Atl.Remap.Page.{
  IsLog, OffLog, OffHome, Place, leave_log-OffLog, leave_home-OffHome,
}

-- The map after the page `t` went to `o`.
abbrev pub moved_map : (t o : ℕ) → (ℕ → ℕ) → ℕ → ℕ
moved_map t o f l = if l == o then f t else if l == t then vc_max else f l

-- What a remap of `t` to `o` leaves behind.
pub record Moved (t o : ℕ) (s u : Ftl) : Type 0 where
  pub map_of : (l : ℕ) → u.map_of l ≡ moved_map t o s.map_of l
  pub ok : MapOk u
  pub idle : GcIdle u

moved_map-only :
    (f : ℕ → ℕ) (t o l m : ℕ)
    → (f l ≡ f m → (f l == vc_max) ≡ false → l ≡ m)
    → (f l ≡ f t → (f l == vc_max) ≡ false → l ≡ t)
    → (f t ≡ f m → (f t == vc_max) ≡ false → t ≡ m)
    → (f t == vc_max) ≡ false
    → moved_map t o f l ≡ moved_map t o f m
    → (moved_map t o f l == vc_max) ≡ false
    → l ≡ m
moved_map-only f t o l m p q r ht e h = ground arith

-- The counts do not depend on the map, and follow an equal state.
counts-OffLog : (v l : ℕ) (s t : Ftl) → OffLog v l s t → CountsOk s → CountsOk t
counts-OffLog v l s t off counts n b hn hb =
    subst (λ (k : ℕ). CountOk k (valid_from 1024 (base_of n b) t.valid)) (sym (off.counts n b))
      (subst (λ (f : ℕ → Bool). CountOk (count_of n b s) (valid_from 1024 (base_of n b) f))
        (sym off.valid) (counts n b hn hb))

taken : (a b : ℕ) (c d : Bool) → (a == b) ≡ false → d ≡ (if a == b then false else c) → d ≡ c
taken a b c d ne e = ground arith

-- Two pages that have a place have two.
pub distinct_places :
    (s : Ftl) (l m : ℕ)
    → MapOk s
    → (s.map_of l == vc_max) ≡ false
    → (l == m) ≡ false
    → (s.map_of l == s.map_of m) ≡ false
distinct_places s l m ok named ne = elim (Bool-cases (s.map_of l == s.map_of m)) [
  | inl same ↦
      let e = ok.only l m ((==_iff (s.map_of l) (s.map_of m)).0 same) named in
      absurd (not_both (l == m) ((==_iff l m).1 e) ne)
  | inr other ↦ other
]
  where
    not_both : (b : Bool) → b ≡ true → b ≡ false → ⊥
    not_both b p q = cc

-- The states of a remap of the page `a`: `s` before, `t` when the page has left its log, `u` when the home's old place
-- is given up.
module _ (s t u : Ftl) (a v old o : ℕ) (log : OffLog v o (with_entry a vc_max s) t)
    (home : OffHome old t u) where
  held_after :
      (x : ℕ)
      → write_buffer_bit ≤ x
      → x < vc_max
      → held u x ≡ (if x == old then invalid_lpn else if x == v then o else held s x)
  held_after x h k =
      home.held_by x h k ∙ ap (λ n. if x == old then invalid_lpn else n) (log.held_by x h)

  valid_after : (x : ℕ) → x < num_pvpn → u.valid x ≡ (if x == old then false else s.valid x)
  valid_after x h =
      home.valid x h ∙ ap (λ (f : ℕ → Bool). if x == old then false else f x) log.valid

  -- A page that is neither the remapped one nor the home's old one stays.
  stays : (l x : ℕ) → (x == old) ≡ false → (x == v) ≡ false → Located s l x → Located u l x
  stays l x ne nv (inl e) = inl e
  stays l x ne nv (inr (inl b)) = inr (inl (b.0, b.1, held_after x b.0 b.1 ∙ rw (ne, nv) b.2))
  stays l x ne nv (inr (inr p)) = inr (inr (p.0, valid_after x p.0 ∙ rw ne p.1))

  moves : (l : ℕ) → (v == old) ≡ false → Located s l v → Located u o v
  moves l ne (inl e) = inl e
  moves l ne (inr (inl b)) =
      inr (inl (b.0, b.1, held_after v b.0 b.1 ∙ rw (ne, (==_iff v v).1 refl) refl))
  moves l ne (inr (inr p)) = inr (inr (p.0, valid_after v p.0 ∙ rw ne p.1))

  moved-Located :
      (l : ℕ)
      → s.map_of a ≡ v
      → s.map_of o ≡ old
      → MapOk s
      → (a == o) ≡ false
      → (v == vc_max) ≡ false
      → Located u l (moved_map a o s.map_of l)
  moved-Located l ea eo ok ne named =
      let known : (s.map_of a == vc_max) ≡ false = ap (λ k. k == vc_max) ea ∙ named in
      let apart_old : (v == old) ≡ false =
        ap (λ k. k == old) (sym ea)
        ∙ ap (λ k. s.map_of a == k) (sym eo)
        ∙ distinct_places s a o ok known ne in
      elim (Bool-cases (l == o)) [
        | inl home ↦
            subst (λ k. Located u l k) (sym (rw home ea))
              (subst (λ k. Located u k v) (sym ((==_iff l o).0 home))
                (moves a apart_old (subst (λ k. Located s a k) ea (ok.located a))))
        | inr other ↦ elim (Bool-cases (l == a)) [
          | inl gone ↦ inl (rw (other, gone) refl)
          | inr third ↦
              subst (λ k. Located u l k) (sym (rw (other, third) refl))
                (elim (Bool-cases (s.map_of l == vc_max)) [
                  | inl nowhere ↦ inl ((==_iff (s.map_of l) vc_max).0 nowhere)
                  | inr somewhere ↦
                      stays l (s.map_of l)
                        (ap (λ k. s.map_of l == k) (sym eo)
                          ∙ distinct_places s l o ok somewhere other)
                        (ap (λ k. s.map_of l == k) (sym ea)
                          ∙ distinct_places s l a ok somewhere third)
                        (ok.located l)
                ])
        ]
      ]

Located-Place : (s : Ftl) (l v : ℕ) → Located s l v → Place s v
Located-Place s l v (inl e) = inl e
Located-Place s l v (inr (inl b)) = inr (inl (b.0, b.1))
Located-Place s l v (inr (inr p)) = inr (inr p)

may_hold-place : (s : Ftl) (l v : ℕ) → Located s l v → may_hold v ≡ true
may_hold-place s l v (inl e) = ground (arith, e)
may_hold-place s l v (inr (inl b)) = ground (arith, b.0, b.1)
may_hold-place s l v (inr (inr p)) = ground (arith, p.0)

get_vpn-returns : (s : Ftl) (l : ℕ) → MapOk s → l < core_pages → get_vpn l s ≡ some (s.map_of l)
get_vpn-returns s l ok h =
    let small : ltb l core_pages ≡ true = ground arith in
    rw (small, may_hold-place s l (s.map_of l) (ok.located l)) refl

pub set_vpn-returns :
    (s : Ftl) (l v : ℕ)
    → l < core_pages
    → may_hold v ≡ true
    → set_vpn l v s ≡ some (with_entry l v s)
set_vpn-returns s l v h entry =
    let small : ltb l core_pages ≡ true = ground arith in rw (small, entry) refl

remapped :
    (ty : WriteType) (v old o : ℕ) (s t u : Ftl) (w : Option Ftl)
    → (v == vc_max) ≡ false
    → leave_log ty v o s ≡ some t
    → leave_home old o t ≡ some u
    → set_vpn o v u ≡ w
    → remap_from ty v old o s ≡ w
remapped ty v old o s t u w known left home set =
    ap
      (λ (c : Bool).
        if c
        then none
        else (leave_log ty v o s >>= λ s'. leave_home old o s' >>= λ s''. set_vpn o v s''))
      known
    ∙ ap (λ (x : Option Ftl). x >>= λ s'. leave_home old o s' >>= λ s''. set_vpn o v s'') left
    ∙ ap (λ (x : Option Ftl). x >>= λ s''. set_vpn o v s'') home
    ∙ set

module _ (ty : WriteType) (a o : ℕ) (s : Ftl) (is_log : IsLog ty) (ok : MapOk s) (idle : GcIdle s)
    (ne : (a == o) ≡ false) (known : (s.map_of a == vc_max) ≡ false) (a_small : a < core_pages)
    (o_small : o < core_pages) (ready : Ready ty s (s.map_of a) 1) where
  begins : remap_page ty a o s ≡ remap_from ty (s.map_of a) (s.map_of o) o (with_entry a vc_max s)
  unfolding remap_page
  begins =
      let v = s.map_of a in
      let old = s.map_of o in
      ap
        (λ (x : Option ℕ).
          x >>= λ v. get_vpn o s >>= λ old. set_vpn a vc_max s >>= λ b. remap_from ty v old o b)
        (get_vpn-returns s a ok a_small)
      ∙ ap (λ (x : Option ℕ). x >>= λ old. set_vpn a vc_max s >>= λ b. remap_from ty v old o b)
          (get_vpn-returns s o ok o_small)
      ∙ ap (λ (x : Option Ftl). x >>= λ b. remap_from ty v old o b)
          (set_vpn-returns s a vc_max a_small refl)

  -- The remap of a page of a log that has a place returns, the home has the place then, and the pages
  -- are in order.
  pub remap_page-Moved : (u : Ftl) × (remap_page ty a o s ≡ some u) × Moved a o s u × Used ty 1 s u
  remap_page-Moved =
      let v = s.map_of a in
      let old = s.map_of o in
      let begun = with_entry a vc_max s in
      let (t, e, log, used_log) = leave_log-OffLog ty v o begun is_log ready in
      let counts = counts-OffLog v o begun t log ok.counts in
      let place : Place t old =
        subst
          (λ (f : ℕ → Bool).
            (old ≡ vc_max)
            ⊎ ((write_buffer_bit ≤ old) × (old < vc_max))
            ⊎ ((old < num_pvpn) × (f old ≡ true)))
          (sym log.valid) (Located-Place s o old (ok.located o)) in
      let (u, f, home, used_home) =
        leave_home-OffHome old o t place counts (λ n. log.gc n ∙ idle n) in
      let map_of : (l : ℕ) → set_at u.map_of o v l ≡ moved_map a o s.map_of l =
        λ l. ap (λ (g : ℕ → ℕ). set_at g o v l) (home.map_of ∙ log.map_of) in
      let entry = may_hold-place s a v (ok.located a) in
      (
        with_entry o v u,
        begins
            ∙ remapped ty v old o begun t u (some (with_entry o v u)) known e f
                (set_vpn-returns u o v o_small entry),
        record {
          map_of = map_of;
          ok = record {
            located = λ l.
                subst (λ k. Located u l k) (sym (map_of l))
                  (moved-Located s t u a v old o log home l refl refl ok ne known);
            only = λ l m same named.
                moved_map-only s.map_of a o l m (ok.only l m) (ok.only l a) (ok.only a m) known
                  (sym (map_of l) ∙ same ∙ map_of m)
                  (ap (λ k. k == vc_max) (sym (map_of l)) ∙ named);
            counts = home.counts;
          };
          idle = home.idle;
        },
        λ w k r. used_home ty w k (used_log w (k + 0) (subst (Ready ty s w) (omega arith) r)),
      )
