-- ===== src/Atl/Write/Page.antt =====
-- assign_new_write_vpn and its variants of ATLWrapper.cpp: the next page of a block that is open, and
-- the first page of a new one.
use shrd_simulator.Base.{
  ℕ, ◌+◌, ◌*◌, ◌/◌, ◌%◌, ◌≡◌, refl, sym, ap, subst, ◌∙◌, Bool, true, false, some, [], ◌∷◌, ◌++◌,
  arith, ◌==◌, Bool-cases, inl, inr, ◌⊎◌, ==_iff,
}
use shrd_simulator.Config.{pages_per_blk}
use shrd_simulator.Atl.Cache.State.{set_at}
use shrd_simulator.Atl.Vpn.{WriteType}
use shrd_simulator.Atl.Write.{BankState, erase_block, program_at}
use shrd_simulator.Atl.Write.Nand.{Nand, Taken, has-apart}
use shrd_simulator.Atl.Write.Switch.{set_at-other}
use shrd_simulator.Atl.Write.Assign.{
  Core, Ops, Assigned, assigned, set_bank, same_type, set_type, advance, fresh,
}
use shrd_simulator.Atl.Write.Flush.{Nands, run_core, run_core-append, at_bank}
use shrd_simulator.Atl.Write.Cursor.{BankOk, block_of, same_type_refl, at_page, Place, next-BankOk}

-- Every bank of the core in order with its NAND.
abbrev pub CoreOk : Core → Nands → Type 0
CoreOk c nands = (n : ℕ) → BankOk (c.banks n) (nands n)

-- The page that a bank gets: it runs on the NAND, after what is issued for it, that the page is
-- programmed, and the core is in order again.
pub record Programs (n : ℕ) (nands : Nands) (r : Assigned) : Type 0 where
  pub page : ℕ
  pub next : Core
  pub ops : Ops
  pub done : r ≡ assigned page next ops
  pub after : Nands
  pub runs :
      run_core (ops ++ ((n, program_at (page / pages_per_blk) (page % pages_per_blk)) ∷ [])) nands
      ≡ some after
  pub ok : CoreOk next after

run_program :
    (n page : ℕ) (nands : Nands)
    → nands n (page / 128) ≡ page % 128
    → run_core ((n, program_at (page / 128) (page % 128)) ∷ []) nands
      ≡ some (set_at nands n (set_at (nands n) (page / 128) (page % 128 + 1)))
unfolding run_core
run_program n page nands e =
    let fits : (nands n (page / 128) == page % 128) ≡ true =
      (==_iff (nands n (page / 128)) (page % 128)).1 e in
    rw fits refl

-- A bank in order writes a page, after what was issued before.
module _ (t : WriteType) (n : ℕ) (c : Core) (nands : Nands) (i : CoreOk c nands) where
  abbrev b : BankState
  b = c.banks n

  Place-Programs :
      (page : ℕ) (count : ℕ → ℕ) (started : WriteType → Bool) (ops : Ops) (before : Nands)
      → run_core ops before ≡ some nands
      → Place b (nands n) t page count started
      → nands n (page / 128) ≡ page % 128
      → Programs n before (assigned page (set_bank n (at_page t page count started b) c) ops)
  Place-Programs page count started ops before run k at = record {
    page = page;
    next = set_bank n (at_page t page count started b) c;
    ops = ops;
    done = refl;
    after = set_at nands n (set_at (nands n) (page / 128) (page % 128 + 1));
    runs =
        run_core-append ops ((n, program_at (page / 128) (page % 128)) ∷ []) before nands run
        ∙ run_program n page nands at;
    ok = λ m.
        at_bank (λ j x nd. BankOk x nd) c.banks nands n (at_page t page count started b)
          (set_at (nands n) (page / 128) (page % 128 + 1)) m
          (next-BankOk b (nands n) t page count started k) (i m);
  }

-- A bank in order writes the next page of its block, or the first page of another.
module _ (t : WriteType) (n : ℕ) (c : Core) (nands : Nands) (i : CoreOk c nands) where
  abbrev bank : BankState
  bank = c.banks n

  same_block-Place :
      (page : ℕ) (started : WriteType → Bool)
      → page / 128 ≡ block_of bank t
      → started t ≡ true
      → ((u : WriteType) → same_type u t ≡ false → started u ≡ bank.write_start u)
      → Place bank (nands n) t page bank.vcount started
  same_block-Place page started same start others = record {
    meta = (i n).meta;
    taken = subst (Taken bank) (sym same) ((i n).cursor t).taken;
    cursor = λ u ne. (i n).cursor u;
    apart = (i n).apart;
    away =
        λ u ne. subst (λ (x : ℕ). (block_of bank u == x) ≡ false) (sym same) ((i n).apart u t ne);
    counts = λ x ne. refl;
    start = start;
    others = others;
  }

  written_at :
      (page : ℕ)
      → page / 128 ≡ block_of bank t
      → nands n (block_of bank t) ≡ page % 128
      → nands n (page / 128) ≡ page % 128
  written_at page same at = ap (nands n) same ∙ at

  -- The next page of the block of the place of writes, which has one.
  pub advance-Programs : (bank.cur_vpn t % 128 == 127) ≡ false → Programs n nands (advance t n [] c)
  unfolding run_core
  advance-Programs more = elim (Bool-cases (bank.write_start t)) [
    | inl started ↦
        rw (started, advance)
          (Place-Programs t n c nands i (bank.cur_vpn t + 1) bank.vcount bank.write_start [] nands
            refl
            (same_block-Place (bank.cur_vpn t + 1) bank.write_start (ground arith) started
              (λ u ne. refl))
            (written_at (bank.cur_vpn t + 1) (ground arith)
              (((i n).cursor t).pages ∙ rw started (ground arith))))
    | inr waiting ↦
        rw (waiting, advance)
          (Place-Programs t n c nands i (bank.cur_vpn t) bank.vcount
            (set_type bank.write_start t true) [] nands refl
            (same_block-Place (bank.cur_vpn t) (set_type bank.write_start t true) refl
              (rw (same_type_refl t) refl) (λ u ne. rw ne refl))
            (((i n).cursor t).pages ∙ rw waiting (sym (((i n).cursor t).unstarted waiting))))
  ]

  -- The first page of a block that is neither free nor in use, and is erased before or now.
  module _ (x : ℕ) (taken : Taken bank x)
      (unused : (u : WriteType) → (block_of bank u == x) ≡ false)
      (started : bank.write_start t ≡ true) where
    new_block-Place :
        (nand : Nand) (count : ℕ)
        → BankOk bank nand
        → Place bank nand t (x * 128) (set_at bank.vcount x count) bank.write_start
    new_block-Place nand count k =
        let at : x * 128 / 128 ≡ x = omega arith in
        record {
          meta = k.meta;
          taken = subst (Taken bank) (sym at) taken;
          cursor = λ u ne. k.cursor u;
          apart = k.apart;
          away = λ u ne. subst (λ (y : ℕ). (block_of bank u == y) ≡ false) (sym at) (unused u);
          counts = λ y ne. rw (subst (λ (z : ℕ). (y == z) ≡ false) at ne) refl;
          start = started;
          others = λ u ne. refl;
        }

    erased-BankOk : BankOk bank (set_at (nands n) x 0)
    erased-BankOk = record {
      meta = record {
        distinct = (i n).meta.distinct;
        counted = (i n).meta.counted;
        blank = λ y h v.
            set_at-other (nands n) x y 0 (has-apart y x bank.free_list h taken.0)
            ∙ (i n).meta.blank y h v;
        apart = (i n).meta.apart;
        place = (i n).meta.place;
        written =
            set_at-other (nands n) x bank.meta_blk 0 (ground (arith, taken.1)) ∙ (i n).meta.written;
      };
      cursor = λ u. record {
        taken = ((i n).cursor u).taken;
        pages = set_at-other (nands n) x (block_of bank u) 0 (unused u) ∙ ((i n).cursor u).pages;
        unstarted = ((i n).cursor u).unstarted;
      };
      apart = (i n).apart;
    }

    abbrev erased_nands : Nands
    erased_nands = set_at nands n (set_at (nands n) x 0)

    erased-CoreOk : CoreOk c erased_nands
    erased-CoreOk m =
        at_bank (λ (j : ℕ) (y : BankState) (nd : Nand). BankOk (c.banks j) nd) c.banks nands n bank
          (set_at (nands n) x 0) m erased-BankOk (i m)

    run_erase : run_core ((n, erase_block x) ∷ []) nands ≡ some erased_nands
    unfolding run_core
    run_erase = refl

    erased_at : erased_nands n x ≡ 0
    erased_at = ground arith

    first_page : (nd : Nand) → nd x ≡ 0 → nd (x * 128 / 128) ≡ x * 128 % 128
    first_page nd e =
        let at : x * 128 / 128 ≡ x = omega arith in
        let zero_page : 0 ≡ x * 128 % 128 = omega arith in ap nd at ∙ e ∙ zero_page

    pub fresh-Programs :
        (ops : Ops) (before : Nands) (erases : Bool) (count : ℕ)
        → run_core ops before ≡ some nands
        → (erases ≡ true) ⊎ (nands n x ≡ 0)
        → Programs n before (fresh t n x ops c (some (erases, count)))
    fresh-Programs ops before true count run ready =
        Place-Programs t n c erased_nands erased-CoreOk (x * 128) (set_at bank.vcount x count)
          bank.write_start (ops ++ ((n, erase_block x) ∷ [])) before
          (run_core-append ops ((n, erase_block x) ∷ []) before nands run ∙ run_erase)
          (new_block-Place (erased_nands n) count (erased-CoreOk n))
          (first_page (erased_nands n) erased_at)
    fresh-Programs ops before false count run ready =
        Place-Programs t n c nands i (x * 128) (set_at bank.vcount x count) bank.write_start ops
          before run (new_block-Place (nands n) count (i n))
          (first_page (nands n) (ground (arith, ready)))
