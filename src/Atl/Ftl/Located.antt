-- ===== src/Atl/Ftl/Located.antt =====
-- Where the pages of a core are: each in a slot of a write buffer that bears its number, in a valid
-- half page of NAND, or nowhere, and no two in one place (get_vpn, set_vpn and writebuf_lpn of
-- ATLWrapper.cpp).
use shrd_simulator.Base.{
  ℕ, ◌+◌, ◌-◌, ◌*◌, ◌/◌, ◌%◌, ◌≤◌, ◌<◌, ◌≡◌, ◌⊎◌, inl, inr, refl, sym, ap, ◌∙◌, Bool, true, false,
  arith, ◌==◌, if◌then◌else◌, ◌&&◌, Bool-cases, ==_iff,
}
use shrd_simulator.Atl.Cache.State.{set_at, vc_max, num_pvpn, write_buffer_bit}
use shrd_simulator.Atl.Vpn.{flip_buffer_bit}
use shrd_simulator.Atl.Buffer.{WriteBuf}
use shrd_simulator.Atl.Ftl.{Ftl, code_buf, code_slot, held, name_slot, set_req}
use shrd_simulator.Atl.Ftl.Counts.{CountsOk}

abbrev pub InBuffer : Ftl → (lpn vpn : ℕ) → Type 0
InBuffer s lpn vpn = (write_buffer_bit ≤ vpn) × (vpn < vc_max) × (held s vpn ≡ lpn)

abbrev pub InNand : Ftl → (vpn : ℕ) → Type 0
InNand s vpn = (vpn < num_pvpn) × (s.valid vpn ≡ true)

abbrev pub Located : Ftl → (lpn vpn : ℕ) → Type 0
Located s lpn vpn = (vpn ≡ vc_max) ⊎ (InBuffer s lpn vpn) ⊎ (InNand s vpn)

pub record MapOk (s : Ftl) : Type 0 where
  pub located : (lpn : ℕ) → Located s lpn (s.map_of lpn)
  pub only : (l m : ℕ) → s.map_of l ≡ s.map_of m → (s.map_of l == vc_max) ≡ false → l ≡ m
  pub counts : CountsOk s

-- The digits of a code.
buf_digits : ℕ → ℕ
buf_digits v = (v / 48 * 2 + v % 48 / 24) * 3 + v % 48 % 24 / 8

slot_digits : ℕ → ℕ
slot_digits v = v % 48 % 24 % 8 / 2 * 2 + v % 48 % 24 % 8 % 2

digits_back : (v : ℕ) → buf_digits v * 8 + slot_digits v ≡ v
unfolding buf_digits slot_digits
digits_back v = omega arith

unflipped : (x : ℕ) → write_buffer_bit ≤ x → flip_buffer_bit x ≡ x - write_buffer_bit
unflipped x h = ground arith

code_digits :
    (x : ℕ)
    → (code_buf x ≡ buf_digits (flip_buffer_bit x))
      × (code_slot x ≡ slot_digits (flip_buffer_bit x))
unfolding buf_digits slot_digits
code_digits x = (refl, refl)

code-inj :
    (x y : ℕ)
    → write_buffer_bit ≤ x
    → write_buffer_bit ≤ y
    → code_buf x ≡ code_buf y
    → code_slot x ≡ code_slot y
    → x ≡ y
code-inj x y hx hy eb es =
    let fx = flip_buffer_bit x in
    let fy = flip_buffer_bit y in
    let bufs = sym (code_digits x).0 ∙ eb ∙ (code_digits y).0 in
    let slots = sym (code_digits x).1 ∙ es ∙ (code_digits y).1 in
    let flips : fx ≡ fy =
      sym (digits_back fx)
      ∙ ap (λ k. k * 8 + slot_digits fx) bufs
      ∙ ap (λ k. buf_digits fy * 8 + k) slots
      ∙ digits_back fy in
    let ux = unflipped x hx in let uy = unflipped y hy in unflip x y hx hy (sym ux ∙ flips ∙ uy)
  where
    unflip :
        (x y : ℕ)
        → write_buffer_bit ≤ x
        → write_buffer_bit ≤ y
        → x - write_buffer_bit ≡ y - write_buffer_bit
        → x ≡ y
    unflip x y hx hy e = omega arith

-- The slots after one gets a number.
slot_named :
    (bufs : ℕ → WriteBuf) (b k l c j : ℕ)
    → (set_at bufs b (set_req k l (bufs b)) c).req_lpn j
      ≡ (if (c == b) && (j == k) then l else (bufs c).req_lpn j)
slot_named bufs b k l c j = elim (Bool-cases (c == b)) [
  | inl e ↦
      let same = (==_iff c b).0 e in
      rw e (ap (λ x. if j == k then l else (bufs x).req_lpn j) (sym same))
  | inr e ↦ rw e refl
]

both_same :
    (b c k j x v : ℕ)
    → (x ≡ v → (c ≡ b) × (j ≡ k))
    → (c ≡ b → j ≡ k → x ≡ v)
    → ((c == b) && (j == k)) ≡ (x == v)
both_same b c k j x v f g = elim (Bool-cases (x == v)) [
  | inl e ↦
      let p = (==_iff c b).1 (f ((==_iff x v).0 e)).0 in
      let q = (==_iff j k).1 (f ((==_iff x v).0 e)).1 in rw (e, p, q) refl
  | inr e ↦ elim (Bool-cases (c == b)) [
    | inl p ↦ elim (Bool-cases (j == k)) [
      | inl q ↦
          absurd (not_both (x == v) ((==_iff x v).1 (g ((==_iff c b).0 p) ((==_iff j k).0 q))) e)
      | inr q ↦ rw (e, p, q) refl
    ]
    | inr p ↦ rw (e, p) refl
  ]
]
  where
    not_both : (b : Bool) → b ≡ true → b ≡ false → ⊥
    not_both b p q = cc

pub held-name_slot :
    (v l x : ℕ) (s : Ftl)
    → write_buffer_bit ≤ v
    → write_buffer_bit ≤ x
    → held (name_slot v l s) x ≡ (if x == v then l else held s x)
held-name_slot v l x s hv hx =
    slot_named s.bufs (code_buf v) (code_slot v) l (code_buf x) (code_slot x)
    ∙ ap (λ (t : Bool). if t then l else held s x)
        (both_same (code_buf v) (code_buf x) (code_slot v) (code_slot x) x v
          (λ e. (ap code_buf e, ap code_slot e)) (code-inj x v hx hv))
