-- ===== src/Atl/Ftl/Counts.antt =====
-- The counts of the blocks are the numbers of their valid half pages, and a page that leaves its place
-- in NAND keeps them so (invalidate_vpn, set_vcount and check_n_invalid_GCbuff of ATLWrapper.cpp).
use shrd_simulator.Base.{
  ℕ, zero, suc, ◌+◌, ◌-◌, ◌^◌, ◌*◌, ◌/◌, ◌%◌, ◌≤◌, ◌<◌, ◌≡◌, ◌⊎◌, inl, inr, refl, sym, ap, subst,
  ◌∙◌, Bool, true, false, some, arith, ◌==◌, if◌then◌else◌, Bool-cases, ==_iff, ltb,
}
use shrd_simulator.Config.{invalid_lpn, blks_per_plane, num_perbank_queue}
use shrd_simulator.Atl.Cache.State.{set_at, vc_max, num_pvpn}
use shrd_simulator.Atl.Write.{BankState, set_count, counts_pages}
use shrd_simulator.Atl.Write.Assign.{set_bank}
use shrd_simulator.Atl.Ftl.{
  Ftl, GcBuffer, nand_bank, nand_block, count_of, gc_loop, check_n_invalid_gcbuff, leave_nand,
  set_pages, set_gc, set_core, invalidate_vpn, set_vcount, get_vcount, count_down,
}

-- The valid half pages among the first `n` after `base`.
unfoldable pub valid_from : (n base : ℕ) → (ℕ → Bool) → ℕ
valid_from zero base valid = 0
valid_from (suc n) base valid = (if valid (base + n) then 1 else 0) + valid_from n base valid

-- The first address of a block of a bank.
abbrev pub base_of : (n block : ℕ) → ℕ
base_of n block = (n % 4 * 2 + n / 4) * 2034688 + block * 1024

valid_from-le : (n base : ℕ) (valid : ℕ → Bool) → valid_from n base valid ≤ n
unfolding valid_from
valid_from-le zero base valid = omega arith
valid_from-le (suc n) base valid = ground (arith, valid_from-le n base valid)

-- A page outside changes nothing.
valid_from-other :
    (n base : ℕ) (valid : ℕ → Bool) (x : ℕ) (mark : Bool)
    → (x < base) ⊎ (base + n ≤ x)
    → valid_from n base (set_at valid x mark) ≡ valid_from n base valid
unfolding valid_from
valid_from-other zero base valid x mark out = refl
valid_from-other (suc n) base valid x mark out =
    let here : (base + n == x) ≡ false = ground arith in
    let rest = valid_from-other n base valid x mark (ground arith) in rw (here, rest) refl

-- A valid page inside that is no longer valid is one less.
valid_from-less :
    (n base : ℕ) (valid : ℕ → Bool) (x : ℕ)
    → base ≤ x
    → x < base + n
    → valid x ≡ true
    → valid_from n base valid ≡ valid_from n base (set_at valid x false) + 1
unfolding valid_from
valid_from-less zero base valid x from to is = absurd (omega arith)
valid_from-less (suc n) base valid x from to is = elim (Bool-cases (base + n == x)) [
  | inl at ↦
      let same : base + n ≡ x = (==_iff (base + n) x).0 at in
      let was : valid (base + n) ≡ true = ap valid same ∙ is in
      rw (at, was, valid_from-other n base valid x false (inr (omega (arith, same)))) (omega arith)
  | inr ne ↦
      let less = valid_from-less n base valid x from (ground (arith, ne)) is in
      rw (ne, less) (omega arith)
]

-- The count of a block that is in use, or of one that is erased and has no valid page.
abbrev pub CountOk : (count valid : ℕ) → Type 0
CountOk count valid = (count ≡ valid) ⊎ ((count ≡ vc_max) × (valid ≡ 0))

abbrev pub CountsOk : Ftl → Type 0
CountsOk s =
    (n block : ℕ)
    → n < num_perbank_queue
    → block < blks_per_plane
    → CountOk (count_of n block s) (valid_from 1024 (base_of n block) s.valid)

-- The block of an address, and the digits of the addresses of a block.
record InBlock (n block x : ℕ) : Type 0 where
  bank : n < 8
  small : block < 1987
  from : base_of n block ≤ x
  to : x < base_of n block + 1024

block_of-address : (x : ℕ) → x < num_pvpn → InBlock (nand_bank x) (nand_block x) x
block_of-address x h =
    let c = x / 4069376 in
    let b = x % 4069376 / 2034688 in
    let channel : c < 4 = omega arith in
    let bank : b < 2 = omega arith in
    let low : (b * 4 + c) % 4 ≡ c = omega arith in
    let high : (b * 4 + c) / 4 ≡ b = omega arith in
    let number : x / 2034688 ≡ c * 2 + b = omega arith in
    record {
      bank = omega arith;
      small = omega arith;
      from = rw (low, high) (omega arith);
      to = rw (low, high) (omega arith);
    }

address-block : (n block x : ℕ) → InBlock n block x → (nand_bank x ≡ n) × (nand_block x ≡ block)
address-block n block x i =
    let number : x / 2034688 ≡ n % 4 * 2 + n / 4 = omega (arith, i.small, i.from, i.to) in
    let rest : x % 2034688 / 1024 ≡ block = omega (arith, i.small, i.from, i.to) in
    (omega (arith, number, i.bank), rest)

-- No bank reads a victim of the garbage collection.
abbrev pub GcIdle : Ftl → Type 0
GcIdle s = (n : ℕ) → (s.pages n).gc.cur_vt_vpn ≡ vc_max

gc_loop-returns :
    (n lpn block : ℕ) (g : GcBuffer)
    → g.cur_vt_vpn ≡ vc_max
    → block < blks_per_plane
    → (h : GcBuffer) × (gc_loop n lpn block g ≡ some h) × (h.cur_vt_vpn ≡ vc_max)
unfolding gc_loop
gc_loop-returns zero lpn block g idle h = (g, refl, idle)
gc_loop-returns (suc n) lpn block g idle h = elim (Bool-cases (g.lpn (g.index - suc n) == lpn)) [
  | inl here ↦
      let apart : (g.cur_vt_vpn / 4 / 128 == block) ≡ false = ground (arith, idle) in
      (
        record {
          index = g.index;
          lpn = set_at g.lpn (g.index - suc n) invalid_lpn;
          cur_vt_vpn = g.cur_vt_vpn;
          num_valid = g.num_valid;
        },
        rw (here, apart) refl,
        idle,
      )
  | inr there ↦ rw there (gc_loop-returns n lpn block g idle h)
]

-- A page that has left its place in NAND: nothing but its bit and its block's count has changed, and
-- the counts still agree.
-- The logs and the pages that are written next are the same.
pub record SameLogs (s t : Ftl) : Type 0 where
  pub rw_log : (n : ℕ) → (t.core.banks n).rw_log_list ≡ (s.core.banks n).rw_log_list
  pub jn_log : (n : ℕ) → (t.core.banks n).jn_log_list ≡ (s.core.banks n).jn_log_list
  pub cur_vpn : (n : ℕ) → (t.core.banks n).cur_vpn ≡ (s.core.banks n).cur_vpn

pub record Left (vpn : ℕ) (s t : Ftl) : Type 0 where
  pub map_of : t.map_of ≡ s.map_of
  pub bufs : t.bufs ≡ s.bufs
  pub valid : t.valid ≡ set_at s.valid vpn false
  pub cursor : t.core.cur_write_bank ≡ s.core.cur_write_bank
  pub remained : (n b : ℕ) → (t.pages n).remained b ≡ (s.pages n).remained b
  pub logs : SameLogs s t
  pub counts : CountsOk t
  pub idle : GcIdle t

abbrev left_state : (vpn count : ℕ) → GcBuffer → Ftl → Ftl
left_state vpn count g s =
    let n = nand_bank vpn in
    let t = invalidate_vpn vpn (set_pages n (set_gc g (s.pages n)) s) in
    set_core (set_bank n (set_count (nand_block vpn) count (s.core.banks n)) t.core) t

left_state-SameLogs :
    (vpn count : ℕ) (g : GcBuffer) (s : Ftl) → SameLogs s (left_state vpn count g s)
left_state-SameLogs vpn count g s = record {
  rw_log = λ m. elim (Bool-cases (m == nand_bank vpn)) [
    | inl e ↦ rw e (ap (λ k. (s.core.banks k).rw_log_list) (sym ((==_iff m (nand_bank vpn)).0 e)))
    | inr e ↦ rw e refl
  ];
  jn_log = λ m. elim (Bool-cases (m == nand_bank vpn)) [
    | inl e ↦ rw e (ap (λ k. (s.core.banks k).jn_log_list) (sym ((==_iff m (nand_bank vpn)).0 e)))
    | inr e ↦ rw e refl
  ];
  cur_vpn = λ m. elim (Bool-cases (m == nand_bank vpn)) [
    | inl e ↦ rw e (ap (λ k. (s.core.banks k).cur_vpn) (sym ((==_iff m (nand_bank vpn)).0 e)))
    | inr e ↦ rw e refl
  ];
}

-- A block that the address is not in.
outside :
    (n block x : ℕ)
    → n < 8
    → block < 1987
    → ((nand_bank x ≡ n) → (nand_block x ≡ block) → ⊥)
    → (x < base_of n block) ⊎ (base_of n block + 1024 ≤ x)
outside n block x hn hb differs = elim (Bool-cases (ltb x (base_of n block))) [
  | inl below ↦ inl (ground (arith, below))
  | inr above ↦ elim (Bool-cases (ltb x (base_of n block + 1024))) [
    | inl inside ↦
        let i : InBlock n block x = record {
          bank = hn;
          small = hb;
          from = ground (arith, above);
          to = ground (arith, inside);
        } in
        absurd (differs (address-block n block x i).0 (address-block n block x i).1)
    | inr beyond ↦ inr (ground (arith, beyond))
  ]
]

not_zero : (a k : ℕ) → a ≡ k + 1 → a ≡ 0 → ⊥
not_zero a k e z = omega arith

-- The counts after the count of one block is set.
module _ (banks : ℕ → BankState) (n b w : ℕ) where
  abbrev counted : ℕ → ℕ → ℕ
  counted m c = (set_at banks n (set_count b w (banks n)) m).vcount c

  counted-here : counted n b ≡ w
  counted-here = ground arith

  counted-bank : (m c : ℕ) → (m == n) ≡ false → counted m c ≡ (banks m).vcount c
  counted-bank m c e = rw (e, counted) refl

  counted-block : (m c : ℕ) → (c == b) ≡ false → counted m c ≡ (banks m).vcount c
  counted-block m c e = elim (Bool-cases (m == n)) [
    | inl same ↦ rw (same, e, counted) (ap (λ k. (banks k).vcount c) (sym ((==_iff m n).0 same)))
    | inr ne ↦ rw (ne, counted) refl
  ]

module _ (vpn : ℕ) (s : Ftl) (h : vpn < num_pvpn) (is : s.valid vpn ≡ true)
    (counts : CountsOk s) where
  abbrev n : ℕ
  n = nand_bank vpn

  abbrev b : ℕ
  b = nand_block vpn

  abbrev pages_left : ℕ
  pages_left = valid_from 1024 (base_of n b) (set_at s.valid vpn false)

  less : valid_from 1024 (base_of n b) s.valid ≡ pages_left + 1
  less =
      let i = block_of-address vpn h in
      valid_from-less 1024 (base_of n b) s.valid vpn i.from i.to is

  left_small : pages_left < 1024
  left_small = omega (arith, less, valid_from-le 1024 (base_of n b) s.valid)

  one_less : count_of n b s ≡ pages_left + 1
  one_less =
      let i = block_of-address vpn h in
      elim (counts n b i.bank i.small) [
        | inl e ↦ e ∙ less
        | inr e ↦ absurd (not_zero (valid_from 1024 (base_of n b) s.valid) pages_left less e.1)
      ]

  elsewhere :
      (m c : ℕ)
      → m < 8
      → c < 1987
      → ((n ≡ m) → (b ≡ c) → ⊥)
      → valid_from 1024 (base_of m c) (set_at s.valid vpn false)
        ≡ valid_from 1024 (base_of m c) s.valid
  elsewhere m c hm hc differs =
      valid_from-other 1024 (base_of m c) s.valid vpn false (outside m c vpn hm hc differs)

  left_state-counts : (g : GcBuffer) → CountsOk (left_state vpn pages_left g s)
  left_state-counts g m c hm hc = elim (Bool-cases (m == n)) [
    | inl bank ↦ elim (Bool-cases (c == b)) [
      | inl block ↦
          let em = (==_iff m n).0 bank in
          let ec = (==_iff c b).0 block in
          inl (
            ap (λ k. counted s.core.banks n b pages_left k c) em
            ∙ ap (λ k. counted s.core.banks n b pages_left n k) ec
            ∙ counted-here s.core.banks n b pages_left
            ∙ ap (λ k. valid_from 1024 (base_of k b) (set_at s.valid vpn false)) (sym em)
            ∙ ap (λ k. valid_from 1024 (base_of m k) (set_at s.valid vpn false)) (sym ec))
      | inr block ↦
          unchanged (counted-block s.core.banks n b pages_left m c block)
            (elsewhere m c hm hc (λ p q. differ b c block q))
    ]
    | inr bank ↦
        unchanged (counted-bank s.core.banks n b pages_left m c bank)
          (elsewhere m c hm hc (λ p q. differ n m bank p))
  ]
    where
      differ : (x y : ℕ) → (y == x) ≡ false → x ≡ y → ⊥
      differ x y ne e = ground arith

      unchanged :
          counted s.core.banks n b pages_left m c ≡ count_of m c s
          → valid_from 1024 (base_of m c) (set_at s.valid vpn false)
            ≡ valid_from 1024 (base_of m c) s.valid
          → CountOk
              (counted s.core.banks n b pages_left m c)
              (valid_from 1024 (base_of m c) (set_at s.valid vpn false))
      unchanged e f =
          subst (λ k. CountOk k (valid_from 1024 (base_of m c) (set_at s.valid vpn false))) (sym e)
            (subst (λ k. CountOk (count_of m c s) k) (sym f) (counts m c hm hc))

few_pages : (w : ℕ) → w < 1024 → counts_pages w ≡ true
few_pages w h = ground arith

-- The tests of the counts in leave_nand.
leave_counted :
    (n b v w : ℕ) (s t : Ftl)
    → v ≡ w + 1
    → w < 1024
    → set_vcount n b w s ≡ some t
    → count_of n b s ≡ v
    → count_down n b (get_vcount n b s) s ≡ some t
leave_counted n b v w s t e small set at =
    let fits : counts_pages v ≡ true = ground arith in
    let down : (v + 2 ^ 32 - 1) % 2 ^ 32 ≡ w = omega arith in rw (at, fits, down) set

pub leave_nand-Left :
    (vpn lpn : ℕ) (s : Ftl)
    → vpn < num_pvpn
    → s.valid vpn ≡ true
    → CountsOk s
    → GcIdle s
    → (t : Ftl) × (leave_nand vpn lpn s ≡ some t) × Left vpn s t
unfolding leave_nand check_n_invalid_gcbuff
leave_nand-Left vpn lpn s h is counts idle =
    let n = nand_bank vpn in
    let b = nand_block vpn in
    let i = block_of-address vpn h in
    let (g, checked, quiet) =
      gc_loop-returns (s.pages n).gc.index lpn b (s.pages n).gc (idle n) i.small in
    let left = pages_left vpn s h is counts in
    let less = one_less vpn s h is counts in
    let small = left_small vpn s h is counts in
    let fits = few_pages left small in
    (
      left_state vpn left g s,
      rw checked (
          leave_counted n b (left + 1) left
            (invalidate_vpn vpn (set_pages n (set_gc g (s.pages n)) s)) (left_state vpn left g s)
            refl small (rw fits refl) less),
      record {
        map_of = refl;
        bufs = refl;
        valid = refl;
        cursor = refl;
        remained = λ m c. elim (Bool-cases (m == n)) [
          | inl e ↦ rw e (ap (λ k. (s.pages k).remained c) (sym ((==_iff m n).0 e)))
          | inr e ↦ rw e refl
        ];
        logs = left_state-SameLogs vpn left g s;
        counts = left_state-counts vpn s h is counts g;
        idle = λ m. elim (Bool-cases (m == n)) [ inl e ↦ rw e quiet | inr e ↦ rw e (idle m) ];
      },
    )

-- The block of a valid page counts it.
pub valid-count :
    (vpn : ℕ) (s : Ftl)
    → vpn < num_pvpn
    → s.valid vpn ≡ true
    → CountsOk s
    → (left : ℕ) × (count_of (nand_bank vpn) (nand_block vpn) s ≡ left + 1) × (left < 1024)
valid-count vpn s h is counts =
    (pages_left vpn s h is counts, one_less vpn s h is counts, left_small vpn s h is counts)
