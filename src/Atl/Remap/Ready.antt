-- ===== src/Atl/Remap/Ready.antt =====
-- The blocks of a log whose pages are remapped or given up (__do_remap and write_page of
-- ATLWrapper.cpp): the remaps that they wait for, and their places in the list of the log.
use shrd_simulator.Base.{
  ℕ, ◌+◌, ◌-◌, ◌%◌, ◌^◌, ◌≤◌, ◌<◌, ◌≡◌, refl, sym, ap, subst, ◌∙◌, Bool, true, false, some, List,
  [], ◌∷◌, arith, ◌==◌, if◌then◌else◌, ◌&&◌, Bool-cases, inl, inr, ==_iff, has,
}
use shrd_simulator.Atl.Cache.State.{write_buffer_bit}
use shrd_simulator.Atl.Vpn.{WriteType, shrd_sw, shrd_rw, shrd_jn}
use shrd_simulator.Atl.Write.{BankState, del_blk}
use shrd_simulator.Atl.Ftl.{Ftl, PageBank, nand_bank, nand_block, set_pages}
use shrd_simulator.Atl.Ftl.Counts.{SameLogs}
use shrd_simulator.Atl.Remap.Kept.{log_closed-same}
use shrd_simulator.Atl.Remap.{is_closed, log_to_data, log_closed, close_log, log_of, set_remained}

-- A block that is not written any more is in the list of its log.
abbrev pub Listed : WriteType → (n block : ℕ) → Ftl → Type 0
Listed ty n block s =
    is_closed ty block (s.core.banks n) ≡ true → has block (log_of ty (s.core.banks n)) ≡ true

pub close_log-returns :
    (ty : WriteType) (n block : ℕ) (s : Ftl)
    → Listed ty n block s
    → close_log ty n block s ≡ some (log_closed ty n block s)
close_log-returns ty n block s listed = elim (Bool-cases (is_closed ty block (s.core.banks n))) [
  | inl closed ↦ rw (closed, listed closed) refl
  | inr opened ↦ rw opened refl
]

log_of-same :
    (ty : WriteType) (s t : Ftl) (n : ℕ)
    → SameLogs s t
    → log_of ty (t.core.banks n) ≡ log_of ty (s.core.banks n)
log_of-same shrd_sw s t n same = same.jn_log n
log_of-same shrd_rw s t n same = same.rw_log n
log_of-same shrd_jn s t n same = same.jn_log n

pub Listed-same :
    (ty : WriteType) (n block : ℕ) (s t : Ftl)
    → SameLogs s t
    → Listed ty n block s
    → Listed ty n block t
Listed-same ty n block s t same listed closed =
    ap (has block) (log_of-same ty s t n same)
    ∙ listed (
        subst
          (λ (f : WriteType → ℕ).
            is_closed ty block (record (s.core.banks n) { cur_vpn = f }) ≡ true)
          (same.cur_vpn n) closed)

-- The remaps that the block of an address waits for.
abbrev pub waits_for : Ftl → (vpn : ℕ) → ℕ
waits_for s v = (s.pages (nand_bank v)).remained (nand_block v)

-- The block of an address in NAND waits for at least `k` remaps, and is in the list of the log.
abbrev pub Ready : WriteType → Ftl → (vpn k : ℕ) → Type 0
Ready ty s v k =
    v < write_buffer_bit
    → 0 < k
    → (k ≤ waits_for s v) × (waits_for s v < 2 ^ 32) × Listed ty (nand_bank v) (nand_block v) s

-- At most `c` remaps less are waited for.
abbrev pub Used : WriteType → (c : ℕ) → (s t : Ftl) → Type 0
Used ty c s t = (v k : ℕ) → Ready ty s v (k + c) → Ready ty t v k

pub Used-trans :
    (ty : WriteType) (c d m : ℕ) (s t u : Ftl)
    → m ≡ c + d
    → Used ty c s t
    → Used ty d t u
    → Used ty m s u
Used-trans ty c d m s t u e first second v k r =
    second v k (first v (k + d) (subst (Ready ty s v) (omega (arith, e)) r))

-- Nothing changed for the logs.
pub Used-same :
    (ty : WriteType) (c : ℕ) (s t : Ftl)
    → SameLogs s t
    → ((n b : ℕ) → (t.pages n).remained b ≡ (s.pages n).remained b)
    → Used ty c s t
Used-same ty c s t same remained v k r nand some_left =
    let e = remained (nand_bank v) (nand_block v) in
    let (enough, fits, listed) = r nand (omega (arith, some_left)) in
    (
      omega (arith, enough, e),
      omega (arith, fits, e),
      Listed-same ty (nand_bank v) (nand_block v) s t same listed,
    )

del_blk-has :
    (x b : ℕ) (l : List ℕ) → (b == x) ≡ false → has b l ≡ true → has b (del_blk x l) ≡ true
del_blk-has x b [] ne h = h
del_blk-has x b (y ∷ ys) ne h = elim (Bool-cases (x == y)) [
  | inl here ↦
      let same : x ≡ y = (==_iff x y).0 here in
      let other : (b == y) ≡ false = ap (λ k. b == k) (sym same) ∙ ne in
      rw here (sym (rw other refl) ∙ h)
  | inr there ↦ elim (Bool-cases (b == y)) [
    | inl at ↦ rw (there, at) refl
    | inr behind ↦ rw (there, behind) (del_blk-has x b ys ne (sym (rw behind refl) ∙ h))
  ]
]

log_to_data-has :
    (ty : WriteType) (x b : ℕ) (bank : BankState)
    → (b == x) ≡ false
    → has b (log_of ty bank) ≡ true
    → has b (log_of ty (log_to_data ty x bank)) ≡ true
log_to_data-has shrd_sw x b bank ne h = h
log_to_data-has shrd_rw x b bank ne h = del_blk-has x b bank.rw_log_list ne h
log_to_data-has shrd_jn x b bank ne h = del_blk-has x b bank.jn_log_list ne h

-- Another block stays in the list.
log_closed-Listed :
    (ty : WriteType) (n x m b : ℕ) (s : Ftl)
    → ((m == n) && (b == x)) ≡ false
    → Listed ty m b s
    → Listed ty m b (log_closed ty n x s)
log_closed-Listed ty n x m b s ne listed = elim (Bool-cases (is_closed ty x (s.core.banks n))) [
  | inr opened ↦ rw opened listed
  | inl closed ↦ elim (Bool-cases (m == n)) [
    | inr there ↦ rw (closed, there) listed
    | inl here ↦
        let same : m ≡ n = (==_iff m n).0 here in
        let other : (b == x) ≡ false = sym (rw here refl) ∙ ne in
        rw (closed, here)
          (λ c.
            log_to_data-has ty x b (s.core.banks n) other
              (subst (λ k. Listed ty k b s) same listed c))
  ]
]

remained_after :
    (n x left : ℕ) (s : Ftl) (m b : ℕ)
    → ((set_pages n (set_remained x left (s.pages n)) s).pages m).remained b
      ≡ (if (m == n) && (b == x) then left else (s.pages m).remained b)
remained_after n x left s m b = elim (Bool-cases (m == n)) [
  | inl here ↦
      rw here
        (ap (λ k. if b == x then left else (s.pages k).remained b) (sym ((==_iff m n).0 here)))
  | inr there ↦ rw there refl
]

pub one_less : (r : ℕ) → 1 ≤ r → r < 2 ^ 32 → (r + 2 ^ 32 - 1) % 2 ^ 32 ≡ r - 1
one_less r h k = omega arith

same_waits :
    (s : Ftl) (m b n x : ℕ)
    → ((m == n) && (b == x)) ≡ true
    → (s.pages m).remained b ≡ (s.pages n).remained x
same_waits s m b n x e = elim (Bool-cases (m == n)) [
  | inl here ↦
      ap (λ k. (s.pages k).remained b) ((==_iff m n).0 here)
      ∙ ap (s.pages n).remained ((==_iff b x).0 (sym (rw here refl) ∙ e))
  | inr there ↦ absurd (clash ((m == n) && (b == x)) e (rw there refl))
]
  where
    clash : (c : Bool) → c ≡ true → c ≡ false → ⊥
    clash c p q = cc

-- The block of the address `v` waits for a remap less.
module _ (ty : WriteType) (v left : ℕ) (s : Ftl) (some_waits : 1 ≤ waits_for s v)
    (less : left ≡ waits_for s v - 1) where
  abbrev n : ℕ
  n = nand_bank v

  abbrev block : ℕ
  block = nand_block v

  abbrev t : Ftl
  t = set_pages n (set_remained block left (s.pages n)) s

  abbrev is_same : (w : ℕ) → Bool
  is_same w = (nand_bank w == n) && (nand_block w == block)

  waits_same : (w : ℕ) → is_same w ≡ true → waits_for t w + 1 ≡ waits_for s w
  waits_same w e =
      let was = same_waits s (nand_bank w) (nand_block w) n block e in
      let now : waits_for t w ≡ left =
        remained_after n block left s (nand_bank w) (nand_block w) ∙ rw e refl in
      omega (arith, was, now, less, some_waits)

  waits_other : (w : ℕ) → is_same w ≡ false → waits_for t w ≡ waits_for s w
  waits_other w e = remained_after n block left s (nand_bank w) (nand_block w) ∙ rw e refl

  pub set_remained-Used : Used ty 1 s t
  set_remained-Used w k ready nand some_left =
      let (enough, fits, listed) = ready nand (omega (arith, some_left)) in
      elim (Bool-cases (is_same w)) [
        | inl same ↦
            let e = waits_same w same in (omega (arith, enough, e), omega (arith, fits, e), listed)
        | inr other ↦
            let e = waits_other w other in
            (omega (arith, enough, e), omega (arith, fits, e), listed)
      ]

  pub log_closed-Used : left ≡ 0 → Used ty 1 s (log_closed ty n block t)
  log_closed-Used last w k ready nand some_left =
      let (enough, fits, listed) = ready nand (omega (arith, some_left)) in
      let kept =
        ap (λ (f : ℕ → PageBank). (f (nand_bank w)).remained (nand_block w))
          (log_closed-same ty n block t).2 in
      elim (Bool-cases (is_same w)) [
        | inl same ↦
            let was = same_waits s (nand_bank w) (nand_block w) n block same in
            absurd (omega (arith, was, last, less, enough, some_left, some_waits))
        | inr other ↦
            let e = waits_other w other in
            (
              omega (arith, enough, e, kept),
              omega (arith, fits, e, kept),
              log_closed-Listed ty n block (nand_bank w) (nand_block w) t other listed,
            )
      ]

pub fewer : (ty : WriteType) (s : Ftl) (v k c : ℕ) → k ≤ c → Ready ty s v c → Ready ty s v k
fewer ty s v k c h r nand some_left =
    let (enough, fits, listed) = r nand (omega (arith, some_left)) in
    (omega (arith, enough), fits, listed)

pub nothing-Used : (ty : WriteType) (c : ℕ) (s : Ftl) → Used ty c s s
nothing-Used ty c s v k r = fewer ty s v k (k + c) (omega arith) r
