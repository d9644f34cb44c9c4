-- ===== src/Atl/Write/Flush.antt =====
-- flush_bank of ATLWrapper.cpp over all banks of a core: what it issues runs on the NAND, and what it
-- leaves alone.
use shrd_simulator.Base.{
  some-inj, ℕ, zero, suc, ◌+◌, ◌-◌, ◌%◌, ◌≡◌, refl, sym, ap, subst, ◌∙◌, true, false, Option, none,
  some, List, [], ◌∷◌, ◌++◌, arith, ◌==◌, Bool-cases, Option-cases, inl, inr, ==_iff,
}
use shrd_simulator.Atl.Cache.State.{set_at}
use shrd_simulator.Atl.Write.{BankState, BlockOp}
use shrd_simulator.Atl.Write.Nand.{Nand, run_op, run_ops, MetaOk, Frame}
use shrd_simulator.Atl.Write.Switch.{kept-Frame}
use shrd_simulator.Atl.Write.Meta.{bank_meta_flush-Flushed}
use shrd_simulator.Atl.Write.Assign.{
  Core, Ops, Run, prepend, and_then, set_bank, tagged, in_bank, flush_meta, bbp_loop, bbp_flush,
  flush_bank, clear_dirty, num_banks, num_bbp,
}

abbrev pub Nands : Type 0
Nands = ℕ → Nand

abbrev in_nands : ℕ → Nands → Option Nand → Option Nands
in_nands n nands none = none
in_nands n nands (some nand) = some (set_at nands n nand)

abbrev next_nands : (Nands → Option Nands) → Option Nands → Option Nands
next_nands f none = none
next_nands f (some nands) = f nands

some-none : {A : Type 0} → (a : A) → some a ≡ none → ⊥
some-none a e = ground arith

-- The operations of a core on the NANDs of its banks.
unfoldable pub run_core : Ops → Nands → Option Nands
run_core [] nands = some nands
run_core (op ∷ ops) nands =
    next_nands (run_core ops) (in_nands op.0 nands (run_op op.1 (nands op.0)))

pub run_core-append :
    (ops more : Ops) (nands mid : Nands)
    → run_core ops nands ≡ some mid
    → run_core (ops ++ more) nands ≡ run_core more mid
unfolding run_core
run_core-append [] more nands mid e = ap (λ (o : Option Nands). next_nands (run_core more) o) e
run_core-append (op ∷ ops) more nands mid e =
    elim (Option-cases (in_nands op.0 nands (run_op op.1 (nands op.0)))) [
      | inl stuck ↦ absurd (some-none mid (sym e ∙ rw stuck refl))
      | inr (n, ran) ↦ rw ran (run_core-append ops more n mid (sym (rw ran refl) ∙ e))
    ]

set_at-twice : (f : Nands) (n : ℕ) (a b : Nand) → set_at (set_at f n a) n b ≡ set_at f n b
set_at-twice f n a b = λ i k. point k i
  where
    point : (k : ℕ) → set_at (set_at f n a) n b k ≡ set_at f n b k
    point k = elim (Bool-cases (k == n)) [ inl e ↦ rw e refl | inr e ↦ rw e refl ]

set_at_self : (f : Nands) (n : ℕ) → set_at f n (f n) ≡ f
set_at_self f n = λ i k. point k i
  where
    point : (k : ℕ) → set_at f n (f n) k ≡ f k
    point k = elim (Bool-cases (k == n)) [
      | inl e ↦ rw e (ap f (sym ((==_iff k n).0 e)))
      | inr e ↦ rw e refl
    ]

same_bank : (f : Nands) (n : ℕ) (a : Nand) → set_at f n a n ≡ a
same_bank f n a = let e : (n == n) ≡ true = (==_iff n n).1 refl in rw e refl

run_core-tagged :
    (n : ℕ) (ops : List BlockOp) (nands : Nands) (after : Nand)
    → run_ops ops (nands n) ≡ some after
    → run_core (tagged n ops) nands ≡ some (set_at nands n after)
unfolding run_core run_ops
run_core-tagged n [] nands after e =
    ap some (sym (set_at_self nands n) ∙ ap (set_at nands n) (some-inj (nands n) after e))
run_core-tagged n (op ∷ ops) nands after e = elim (Option-cases (run_op op (nands n))) [
  | inl stuck ↦ absurd (some-none after (sym e ∙ rw stuck refl))
  | inr (a, ran) ↦ rw ran (
      run_core-tagged n ops (set_at nands n a) after
        (ap (run_ops ops) (same_bank nands n a) ∙ sym (rw ran refl) ∙ e)
      ∙ ap some (set_at-twice nands n a after))
]

-- A bank for every number, each in order with its NAND.
abbrev pub AllMetaOk : Core → Nands → Type 0
AllMetaOk c nands = (n : ℕ) → MetaOk (c.banks n) (nands n)

-- The flush of a core: what it issues runs, and every bank is in order again with its frame.
pub record CoreFlushed (c : Core) (nands : Nands) (r : Run) : Type 0 where
  pub next : Core
  pub ops : Ops
  pub done : r ≡ some (next, ops)
  pub after : Nands
  pub runs : run_core ops nands ≡ some after
  pub ok : AllMetaOk next after
  pub frame : (n : ℕ) → Frame (c.banks n) (nands n) (next.banks n) (after n)

Frame-trans :
    (a : BankState) (na : Nand) (b : BankState) (nb : Nand) (c : BankState) (nc : Nand)
    → Frame a na b nb
    → Frame b nb c nc
    → Frame a na c nc
Frame-trans a na b nb c nc f g = record {
  data_list = g.data_list ∙ f.data_list;
  rw_log_list = g.rw_log_list ∙ f.rw_log_list;
  jn_log_list = g.jn_log_list ∙ f.jn_log_list;
  cur_vpn = g.cur_vpn ∙ f.cur_vpn;
  write_start = g.write_start ∙ f.write_start;
  taken = λ x t. g.taken x (f.taken x t);
  pages = λ x t. g.pages x (f.taken x t) ∙ f.pages x t;
  vcount = λ x t. g.vcount x (f.taken x t) ∙ f.vcount x t;
}

-- What holds of one bank's new state, and of the old state of the others, holds of all.
pub at_bank :
    (Q : ℕ → BankState → Nand → Type 0) (banks : ℕ → BankState) (nands : Nands) (n : ℕ)
    (b : BankState) (nand : Nand) (m : ℕ)
    → Q n b nand
    → Q m (banks m) (nands m)
    → Q m (set_at banks n b m) (set_at nands n nand m)
at_bank Q banks nands n b nand m new old = elim (Bool-cases (m == n)) [
  | inl e ↦ rw e (subst (λ (k : ℕ). Q k b nand) (sym ((==_iff m n).0 e)) new)
  | inr e ↦ rw e old
]

flush_meta-CoreFlushed :
    (n : ℕ) (c : Core) (nands : Nands) → AllMetaOk c nands → CoreFlushed c nands (flush_meta n c)
flush_meta-CoreFlushed n c nands i =
    let k = bank_meta_flush-Flushed (c.banks n) (nands n) (i n) in
    record {
      next = set_bank n k.next c;
      ops = tagged n k.ops;
      done = ap (in_bank n c) k.done;
      after = set_at nands n k.after;
      runs = run_core-tagged n k.ops nands k.after k.runs;
      ok = λ m. at_bank (λ k b nd. MetaOk b nd) c.banks nands n k.next k.after m k.ok (i m);
      frame = λ m.
          at_bank (λ k b nd. Frame (c.banks k) (nands k) b nd) c.banks nands n k.next k.after m
            k.frame (kept-Frame (c.banks m) (nands m));
    }

and_then-CoreFlushed :
    (c : Core) (nands : Nands) (r : Run) (f : Core → Run)
    → CoreFlushed c nands r
    → ((d : Core) (mid : Nands) → AllMetaOk d mid → CoreFlushed d mid (f d))
    → CoreFlushed c nands (and_then r f)
and_then-CoreFlushed c nands r f k next =
    let l = next k.next k.after k.ok in
    record {
      next = l.next;
      ops = k.ops ++ l.ops;
      done = ap (λ (x : Run). and_then x f) k.done ∙ ap (prepend k.ops) l.done;
      after = l.after;
      runs = run_core-append k.ops l.ops nands k.after k.runs ∙ l.runs;
      ok = l.ok;
      frame = λ n.
          Frame-trans (c.banks n) (nands n) (k.next.banks n) (k.after n) (l.next.banks n)
            (l.after n) (k.frame n) (l.frame n);
    }

nothing-CoreFlushed :
    (c : Core) (nands : Nands) → AllMetaOk c nands → CoreFlushed c nands (some (c, []))
unfolding run_core
nothing-CoreFlushed c nands i = record {
  next = c;
  ops = [];
  done = refl;
  after = nands;
  runs = refl;
  ok = i;
  frame = λ n. kept-Frame (c.banks n) (nands n);
}

bbp_loop-CoreFlushed :
    (n bank : ℕ) (c : Core) (nands : Nands)
    → AllMetaOk c nands
    → CoreFlushed c nands (bbp_loop n bank c)
unfolding bbp_loop
bbp_loop-CoreFlushed zero bank c nands i = nothing-CoreFlushed c nands i
bbp_loop-CoreFlushed (suc n) bank c nands i = elim (Bool-cases (c.dirty_bbp (num_bbp - suc n))) [
  | inl dirty ↦
      rw (dirty, bbp_loop)
        (and_then-CoreFlushed c nands (flush_meta bank c) (bbp_loop n ((bank + 1) % num_banks))
          (flush_meta-CoreFlushed bank c nands i) (bbp_loop-CoreFlushed n ((bank + 1) % num_banks)))
  | inr kept ↦ rw (kept, bbp_loop) (bbp_loop-CoreFlushed n bank c nands i)
]

clear_dirty-CoreFlushed :
    (c : Core) (nands : Nands) → AllMetaOk c nands → CoreFlushed c nands (clear_dirty c)
unfolding run_core
clear_dirty-CoreFlushed c nands i = record {
  next = record { banks = c.banks; dirty_bbp = λ k. false; cur_write_bank = c.cur_write_bank };
  ops = [];
  done = refl;
  after = nands;
  runs = refl;
  ok = i;
  frame = λ n. kept-Frame (c.banks n) (nands n);
}

-- From a core whose banks are in order, the flush of a bank passes its assertions whatever is dirty;
-- every page of metadata that it programs, in any bank, is the next erased page of its block, and
-- every bank is in order again and keeps the blocks that are neither free nor the metadata's.
pub flush_bank-CoreFlushed :
    (n : ℕ) (c : Core) (nands : Nands) → AllMetaOk c nands → CoreFlushed c nands (flush_bank n c)
unfolding flush_bank
flush_bank-CoreFlushed n c nands i =
    and_then-CoreFlushed c nands (bbp_flush c) (flush_meta n)
      (and_then-CoreFlushed c nands (bbp_loop num_bbp c.cur_write_bank c) clear_dirty
        (bbp_loop-CoreFlushed num_bbp c.cur_write_bank c nands i) clear_dirty-CoreFlushed)
      (flush_meta-CoreFlushed n)
