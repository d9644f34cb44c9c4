-- ===== src/Atl/Write/Cursor.antt =====
-- The places of the next writes of a bank, and what keeps them in order (ATLWrapper.cpp).
use shrd_simulator.Base.{
  ℕ, ◌+◌, ◌/◌, ◌%◌, ◌≡◌, refl, sym, ap, subst, ◌∙◌, Bool, true, false, arith, ◌==◌, if◌then◌else◌,
  Bool-cases, inl, inr, has,
}
use shrd_simulator.Config.{pages_per_blk}
use shrd_simulator.Atl.Cache.State.{set_at}
use shrd_simulator.Atl.Vpn.{WriteType, shrd_sw, shrd_rw, shrd_jn}
use shrd_simulator.Atl.Write.{BankState}
use shrd_simulator.Atl.Write.Nand.{Nand, MetaOk, Taken, Frame, has-apart}
use shrd_simulator.Atl.Write.Switch.{set_at-same, set_at-other}
use shrd_simulator.Atl.Write.Assign.{same_type, set_type}

-- A place of writes: its block is neither free nor the metadata's, and the pages up to the place are
-- programmed, or none before the first write.
pub record CursorOk (b : BankState) (nand : Nand) (vpn : ℕ) (started : Bool) : Type 0 where
  pub taken : Taken b (vpn / pages_per_blk)
  pub pages : nand (vpn / pages_per_blk) ≡ (if started then vpn % pages_per_blk + 1 else 0)
  pub unstarted : started ≡ false → vpn % pages_per_blk ≡ 0

abbrev pub block_of : BankState → WriteType → ℕ
block_of b t = b.cur_vpn t / pages_per_blk

pub record BankOk (b : BankState) (nand : Nand) : Type 0 where
  pub meta : MetaOk b nand
  pub cursor : (t : WriteType) → CursorOk b nand (b.cur_vpn t) (b.write_start t)
  pub apart : (t u : WriteType) → same_type t u ≡ false → (block_of b t == block_of b u) ≡ false

pub same_type_refl : (t : WriteType) → same_type t t ≡ true
same_type_refl shrd_sw = refl
same_type_refl shrd_rw = refl
same_type_refl shrd_jn = refl

same_type-eq : (t u : WriteType) → same_type t u ≡ true → t ≡ u
same_type-eq shrd_sw shrd_sw e = refl
same_type-eq shrd_rw shrd_rw e = refl
same_type-eq shrd_jn shrd_jn e = refl
same_type-eq shrd_sw shrd_rw e = absurd (ground arith)
same_type-eq shrd_sw shrd_jn e = absurd (ground arith)
same_type-eq shrd_rw shrd_sw e = absurd (ground arith)
same_type-eq shrd_rw shrd_jn e = absurd (ground arith)
same_type-eq shrd_jn shrd_sw e = absurd (ground arith)
same_type-eq shrd_jn shrd_rw e = absurd (ground arith)

-- The flush leaves a place of writes in order.
pub CursorOk-Frame :
    (b : BankState) (nand : Nand) (c : BankState) (nand1 : Nand) (vpn : ℕ) (started : Bool)
    → Frame b nand c nand1
    → CursorOk b nand vpn started
    → CursorOk c nand1 vpn started
CursorOk-Frame b nand c nand1 vpn started f k = record {
  taken = f.taken (vpn / 128) k.taken;
  pages = f.pages (vpn / 128) k.taken ∙ k.pages;
  unstarted = k.unstarted;
}

pub BankOk-Frame :
    (b : BankState) (nand : Nand) (c : BankState) (nand1 : Nand)
    → Frame b nand c nand1
    → MetaOk c nand1
    → BankOk b nand
    → BankOk c nand1
BankOk-Frame b nand c nand1 f m k = record {
  meta = m;
  cursor = λ t.
      subst (λ (s : WriteType → Bool). CursorOk c nand1 (c.cur_vpn t) (s t)) (sym f.write_start)
        (subst (λ (v : WriteType → ℕ). CursorOk c nand1 (v t) (b.write_start t)) (sym f.cur_vpn)
          (CursorOk-Frame b nand c nand1 (b.cur_vpn t) (b.write_start t) f (k.cursor t)));
  apart = λ t u ne.
      subst (λ (v : WriteType → ℕ). (v t / 128 == v u / 128) ≡ false) (sym f.cur_vpn)
        (k.apart t u ne);
}

-- The state of a bank that writes at `page` of the kind `t`.
abbrev pub at_page :
    (t : WriteType) (page : ℕ) (count : ℕ → ℕ) (started : WriteType → Bool) → BankState → BankState
at_page t page count started b = record {
  free_list = b.free_list;
  data_list = b.data_list;
  rw_log_list = b.rw_log_list;
  jn_log_list = b.jn_log_list;
  vcount = count;
  cur_vpn = set_type b.cur_vpn t page;
  write_start = started;
  meta_blk = b.meta_blk;
  cur_meta_vpn = b.cur_meta_vpn;
  meta_start = b.meta_start;
}

-- What a new place of writes asks of the bank.
pub record Place (b : BankState) (nand : Nand) (t : WriteType) (page : ℕ) (count : ℕ → ℕ)
    (started : WriteType → Bool) : Type 0 where
  pub meta : MetaOk b nand
  pub taken : Taken b (page / pages_per_blk)
  pub cursor :
      (u : WriteType) → same_type u t ≡ false → CursorOk b nand (b.cur_vpn u) (b.write_start u)
  pub apart : (u v : WriteType) → same_type u v ≡ false → (block_of b u == block_of b v) ≡ false
  pub away :
      (u : WriteType) → same_type u t ≡ false → (block_of b u == page / pages_per_blk) ≡ false
  pub counts : (x : ℕ) → (x == page / pages_per_blk) ≡ false → count x ≡ b.vcount x
  pub start : started t ≡ true
  pub others : (u : WriteType) → same_type u t ≡ false → started u ≡ b.write_start u

module _ (b : BankState) (nand : Nand) (t : WriteType) (page : ℕ) (count : ℕ → ℕ)
    (started : WriteType → Bool) (k : Place b nand t page count started) where
  abbrev block : ℕ
  block = page / 128

  abbrev after : Nand
  after = set_at nand block (page % 128 + 1)

  abbrev next : BankState
  next = at_page t page count started b

  free-block : (x : ℕ) → has x b.free_list ≡ true → (x == block) ≡ false
  free-block x h = has-apart x block b.free_list h k.taken.0

  next-MetaOk : MetaOk next after
  next-MetaOk = record {
    distinct = k.meta.distinct;
    counted = λ x h. ground (arith, k.counts x (free-block x h), k.meta.counted x h);
    blank = λ x h v.
        set_at-other nand block x (page % 128 + 1) (free-block x h)
        ∙ k.meta.blank x h (ground (arith, k.counts x (free-block x h)));
    apart = k.meta.apart;
    place = k.meta.place;
    written =
        set_at-other nand block b.meta_blk (page % 128 + 1) (ground (arith, k.taken.1))
        ∙ k.meta.written;
  }

  new-CursorOk : CursorOk next after page true
  new-CursorOk = record {
    taken = k.taken;
    pages = set_at-same nand block (page % 128 + 1);
    unstarted = λ e. absurd (ground arith);
  }

  other-CursorOk :
      (u : WriteType) → same_type u t ≡ false → CursorOk next after (b.cur_vpn u) (b.write_start u)
  other-CursorOk u ne =
      let c = k.cursor u ne in
      record {
        taken = c.taken;
        pages = set_at-other nand block (block_of b u) (page % 128 + 1) (k.away u ne) ∙ c.pages;
        unstarted = c.unstarted;
      }

  next-cursor : (u : WriteType) → CursorOk next after (next.cur_vpn u) (started u)
  next-cursor u = elim (Bool-cases (same_type u t)) [
    | inl e ↦ rw (e, ap started (same_type-eq u t e), k.start) new-CursorOk
    | inr ne ↦ rw (ne, k.others u ne) (other-CursorOk u ne)
  ]

  next-apart :
      (u v : WriteType) → same_type u v ≡ false → (block_of next u == block_of next v) ≡ false
  next-apart u v ne = elim (Bool-cases (same_type u t)) [
    | inl e ↦ elim (Bool-cases (same_type v t)) [
      | inl f ↦
          let both : same_type u v ≡ same_type t t =
            ap (λ (x : WriteType). same_type x v) (same_type-eq u t e)
            ∙ ap (same_type t) (same_type-eq v t f) in
          absurd (ground (arith, sym both ∙ ne, same_type_refl t))
      | inr f ↦ rw (e, f) (ground (arith, k.away v f))
    ]
    | inr e ↦ elim (Bool-cases (same_type v t)) [
      | inl f ↦ rw (e, f) (k.away u e)
      | inr f ↦ rw (e, f) (k.apart u v ne)
    ]
  ]

  -- The page that a bank in order writes next is programmed, and the bank is in order again.
  pub next-BankOk : BankOk next after
  next-BankOk = record { meta = next-MetaOk; cursor = next-cursor; apart = next-apart }
