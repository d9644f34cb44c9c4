-- ===== src/Atl/Remap/Page.antt =====
-- The remap of one page (__do_remap of ATLWrapper.cpp): the home gets the place of the page of the
-- log, and what the home held before is given up.
use shrd_simulator.Base.{
  ℕ, ◌^◌, ◌+◌, ◌-◌, ◌%◌, ◌≤◌, ◌<◌, ◌≡◌, ◌⊎◌, inl, inr, refl, sym, ap, ◌∙◌, Bool, true, false,
  Option, none, some, arith, ◌==◌, if◌then◌else◌, ◌||◌, Bool-cases, ==_iff,
}
use shrd_simulator.Config.{invalid_lpn}
use shrd_simulator.Atl.Cache.State.{vc_max, num_pvpn, write_buffer_bit}
use shrd_simulator.Atl.Vpn.{WriteType, shrd_sw, shrd_rw, shrd_jn, is_in_write_buffer}
use shrd_simulator.Atl.Write.{counts_pages}
use shrd_simulator.Atl.Write.Assign.{same_type}
use shrd_simulator.Atl.Buffer.{WriteBuf}
use shrd_simulator.Atl.Ftl.{
  ◌>>=◌, Ftl, PageBank, nand_bank, nand_block, code_bank, name_slot, set_pages, held, count_of,
  get_vcount, code_buf, code_slot, leave_nand,
}
use shrd_simulator.Atl.Ftl.Counts.{CountsOk, GcIdle, leave_nand-Left, valid-count}
use shrd_simulator.Atl.Ftl.Located.{held-name_slot}
use shrd_simulator.Atl.Remap.Kept.{log_closed-count, log_closed-same, set_pages-gc}
use shrd_simulator.Atl.Remap.Ready.{
  Listed, close_log-returns, Ready, Used, Used-same, waits_for, one_less, set_remained-Used,
  log_closed-Used,
}
use shrd_simulator.Atl.Remap.{
  log_closed, log_done, set_remained, remap_in_nand, remap_in_buffer, leave_log, leave_home,
}

-- The page at `v` has left its log for the home `l`: the map, the valid pages and the counts are as
-- before, and a slot at `v` bears the number of the home.
pub record OffLog (v l : ℕ) (s t : Ftl) : Type 0 where
  pub map_of : t.map_of ≡ s.map_of
  pub valid : t.valid ≡ s.valid
  pub counts : (n b : ℕ) → count_of n b t ≡ count_of n b s
  pub gc : (n : ℕ) → (t.pages n).gc.cur_vt_vpn ≡ (s.pages n).gc.cur_vt_vpn
  pub held_by : (x : ℕ) → write_buffer_bit ≤ x → held t x ≡ (if x == v then l else held s x)

-- The home's old place is given up.
pub record OffHome (old : ℕ) (s t : Ftl) : Type 0 where
  pub map_of : t.map_of ≡ s.map_of
  pub valid : (x : ℕ) → x < num_pvpn → t.valid x ≡ (if x == old then false else s.valid x)
  pub counts : CountsOk t
  pub idle : GcIdle t
  pub held_by :
      (x : ℕ)
      → write_buffer_bit ≤ x
      → x < vc_max
      → held t x ≡ (if x == old then invalid_lpn else held s x)

-- No slot has an address of NAND for its code.
not_held :
    (v l x : ℕ) (s : Ftl)
    → v < write_buffer_bit
    → write_buffer_bit ≤ x
    → held s x ≡ (if x == v then l else held s x)
not_held v l x s h hx = let apart : (x == v) ≡ false = ground arith in rw apart refl

set_pages-OffLog :
    (n v l : ℕ) (p : PageBank) (s : Ftl)
    → v < write_buffer_bit
    → p.gc ≡ (s.pages n).gc
    → OffLog v l s (set_pages n p s)
set_pages-OffLog n v l p s h e = record {
  map_of = refl;
  valid = refl;
  counts = λ m b. refl;
  gc = λ m. set_pages-gc n p s m e;
  held_by = λ x hx. not_held v l x s h hx;
}

log_closed-OffLog :
    (ty : WriteType) (n block v l : ℕ) (p : PageBank) (s : Ftl)
    → v < write_buffer_bit
    → p.gc ≡ (s.pages n).gc
    → OffLog v l s (log_closed ty n block (set_pages n p s))
log_closed-OffLog ty n block v l p s h e =
    let t = set_pages n p s in
    let same = log_closed-same ty n block t in
    record {
      map_of = same.0;
      valid = same.1;
      counts = λ m b. log_closed-count ty n block t m b;
      gc = λ m. ap (λ (f : ℕ → PageBank). (f m).gc.cur_vt_vpn) same.2 ∙ set_pages-gc n p s m e;
      held_by = λ x hx.
          ap (λ (f : ℕ → WriteBuf). (f (code_buf x)).req_lpn (code_slot x)) same.3
          ∙ not_held v l x s h hx;
    }

-- The log of a remap is that of the random writes or that of the journal.
abbrev pub IsLog : WriteType → Type 0
IsLog ty = same_type ty shrd_sw ≡ false

log_done-returns :
    (ty : WriteType) (n block : ℕ) (s : Ftl)
    → IsLog ty
    → Listed ty n block s
    → log_done ty n block s ≡ some (log_closed ty n block s)
log_done-returns shrd_sw n block s h listed = cc
log_done-returns shrd_rw n block s h listed = close_log-returns shrd_rw n block s listed
log_done-returns shrd_jn n block s h listed = close_log-returns shrd_jn n block s listed

remap_in_nand-OffLog :
    (ty : WriteType) (v l : ℕ) (s : Ftl)
    → IsLog ty
    → v < write_buffer_bit
    → Ready ty s v 1
    → (t : Ftl) × (remap_in_nand ty v s ≡ some t) × OffLog v l s t × Used ty 1 s t
remap_in_nand-OffLog ty v l s is_log h ready =
    let n = nand_bank v in
    let block = nand_block v in
    let left = (waits_for s v + 2 ^ 32 - 1) % 2 ^ 32 in
    let p = set_remained block left (s.pages n) in
    let (enough, fits, listed) = ready h (omega arith) in
    let less = one_less (waits_for s v) enough fits in
    elim (Bool-cases (left == 0)) [
      | inl last ↦ (
        log_closed ty n block (set_pages n p s),
        rw last (log_done-returns ty n block (set_pages n p s) is_log listed),
        log_closed-OffLog ty n block v l p s h refl,
        log_closed-Used ty v left s enough less ((==_iff left 0).0 last),
      )
      | inr more ↦ (
        set_pages n p s,
        rw more refl,
        set_pages-OffLog n v l p s h refl,
        set_remained-Used ty v left s enough less,
      )
    ]

remap_in_buffer-OffLog :
    (v l : ℕ) (s : Ftl) → write_buffer_bit ≤ v → OffLog v l s (remap_in_buffer v l s)
remap_in_buffer-OffLog v l s h =
    let n = code_bank v in
    let q = s.pages n in
    let p : PageBank = record {
      remained = q.remained;
      inbuff = (q.inbuff + 1) % 2 ^ 32;
      gc = q.gc;
    } in
    record {
      map_of = refl;
      valid = refl;
      counts = λ m b. refl;
      gc = λ m. set_pages-gc n p s m refl;
      held_by = λ x hx. held-name_slot v l x (set_pages n p s) h hx;
    }

remap_in_buffer-Used : (ty : WriteType) (v l : ℕ) (s : Ftl) → Used ty 1 s (remap_in_buffer v l s)
remap_in_buffer-Used ty v l s =
    let n = code_bank v in
    Used-same ty 1 s (remap_in_buffer v l s)
      (record { rw_log = λ m. refl; jn_log = λ m. refl; cur_vpn = λ m. refl })
      (λ m b. elim (Bool-cases (m == n)) [
        | inl e ↦ rw e (ap (λ k. (s.pages k).remained b) (sym ((==_iff m n).0 e)))
        | inr e ↦ rw e refl
      ])

pub leave_log-OffLog :
    (ty : WriteType) (v l : ℕ) (s : Ftl)
    → IsLog ty
    → Ready ty s v 1
    → (t : Ftl) × (leave_log ty v l s ≡ some t) × OffLog v l s t × Used ty 1 s t
leave_log-OffLog ty v l s is_log ready = elim (Bool-cases (is_in_write_buffer v)) [
  | inl buffered ↦ (
    remap_in_buffer v l s,
    rw buffered refl,
    remap_in_buffer-OffLog v l s (ground (arith, buffered)),
    remap_in_buffer-Used ty v l s,
  )
  | inr nand ↦
      let (t, e, off, used) = remap_in_nand-OffLog ty v l s is_log (ground (arith, nand)) ready in
      (t, rw nand e, off, used)
]

-- The home may be nowhere, in a write buffer or in NAND.
abbrev pub Place : Ftl → (vpn : ℕ) → Type 0
Place s vpn =
    (vpn ≡ vc_max)
    ⊎ ((write_buffer_bit ≤ vpn) × (vpn < vc_max))
    ⊎ ((vpn < num_pvpn) × (s.valid vpn ≡ true))

elsewhere : {A : Type 0} → (a b : A) (x y : ℕ) → (x == y) ≡ false → b ≡ (if x == y then a else b)
elsewhere a b x y e = rw e refl

pub apart : (x y : ℕ) → x < y → ((x == y) ≡ false) × ((y == x) ≡ false)
apart x y h = ground arith

home_counted :
    (n b v : ℕ) (s : Ftl) (next : Option Ftl)
    → count_of n b s ≡ v + 1
    → v < 1024
    → (get_vcount n b s >>= λ count. if count == 0 || count == vc_max then none else next) ≡ next
home_counted n b v s next at few =
    let fits : counts_pages (v + 1) ≡ true = ground arith in
    let used : (v + 1 == 0) ≡ false = ground arith in
    let named : (v + 1 == vc_max) ≡ false = ground arith in rw (at, fits) (rw (used, named) refl)

pub leave_home-OffHome :
    (old o : ℕ) (s : Ftl)
    → Place s old
    → CountsOk s
    → GcIdle s
    → (t : Ftl) × (leave_home old o s ≡ some t)
      × OffHome old s t
      × ((ty : WriteType) → Used ty 0 s t)
leave_home-OffHome old o s (inl e) counts idle = (
  s,
  rw e refl,
  record {
    map_of = refl;
    valid = λ x h. elsewhere false (s.valid x) x old (ground (arith, e));
    counts = counts;
    idle = idle;
    held_by = λ x h k. elsewhere invalid_lpn (held s x) x old (ground (arith, e));
  },
  λ ty.
      Used-same ty 0 s s (record { rw_log = λ m. refl; jn_log = λ m. refl; cur_vpn = λ m. refl })
        (λ m b. refl),
)
leave_home-OffHome old o s (inr (inl b)) counts idle =
    let named : (old == vc_max) ≡ false = ground (arith, b.1) in
    let buffered : is_in_write_buffer old ≡ true = ground (arith, b.0) in
    (
      name_slot old invalid_lpn s,
      rw (named, buffered) refl,
      record {
        map_of = refl;
        valid = λ x h. elsewhere false (s.valid x) x old (apart x old (omega (arith, b.0))).0;
        counts = counts;
        idle = idle;
        held_by = λ x h k. held-name_slot old invalid_lpn x s b.0 h;
      },
      λ ty.
          Used-same ty 0 s (name_slot old invalid_lpn s)
            (record { rw_log = λ m. refl; jn_log = λ m. refl; cur_vpn = λ m. refl }) (λ m b. refl),
    )
leave_home-OffHome old o s (inr (inr p)) counts idle =
    let nand : is_in_write_buffer old ≡ false = ground (arith, p.0) in
    let (left, count, few) = valid-count old s p.0 p.1 counts in
    let (t, e, off) = leave_nand-Left old o s p.0 p.1 counts idle in
    (
      t,
      rw ((apart old vc_max (omega (arith, p.0))).0, nand)
          (home_counted (nand_bank old) (nand_block old) left s (leave_nand old o s) count few ∙ e),
      record {
        map_of = off.map_of;
        valid = λ x h. ap (λ (f : ℕ → Bool). f x) off.valid;
        counts = off.counts;
        idle = off.idle;
        held_by = λ x h k.
            ap (λ (f : ℕ → WriteBuf). (f (code_buf x)).req_lpn (code_slot x)) off.bufs
            ∙ elsewhere invalid_lpn (held s x) x old (apart old x (omega (arith, p.0))).1;
      },
      λ ty. Used-same ty 0 s t off.logs off.remained,
    )
