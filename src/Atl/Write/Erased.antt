-- ===== src/Atl/Write/Erased.antt =====
-- assign_new_write_vpn and its variants of ATLWrapper.cpp as a whole: the page that they give is
-- erased, and the next one of its block.
use shrd_simulator.Base.{
  ℕ, ◌/◌, ◌%◌, ◌≡◌, refl, sym, ap, subst, ◌∙◌, Bool, true, false, Option, some, List, [], ◌∷◌,
  arith, ◌==◌, Bool-cases, inl, inr, ◌⊎◌, ==_iff, has, IsDistinct, ◌&&◌, ◌||◌,
}
use shrd_simulator.Atl.Cache.State.{set_at, vc_max}
use shrd_simulator.Atl.Vpn.{WriteType, shrd_sw, shrd_rw, shrd_jn, get_block}
use shrd_simulator.Atl.Write.{BankState, get_free_block, counts_pages}
use shrd_simulator.Atl.Write.Nand.{Nand, Taken, Frame, has-apart, del-head}
use shrd_simulator.Atl.Write.Assign.{
  Core, set_bank, move_block, fresh, after_flush, new_block, new_count, flush_bank,
  assign_new_write_vpn_of, Run,
}
use shrd_simulator.Atl.Write.Flush.{Nands, flush_bank-CoreFlushed, at_bank}
use shrd_simulator.Atl.Write.Cursor.{BankOk, block_of, BankOk-Frame}
use shrd_simulator.Atl.Write.Page.{CoreOk, Programs, advance-Programs, fresh-Programs}

-- What a new block gets: it is erased now, or its count says that it is.
new_count-ready :
    (t : WriteType) (count : ℕ)
    → (count == 0 || count == vc_max) ≡ true
    → (erases : Bool) × (next : ℕ) × (new_count t count ≡ some (erases, next))
      × ((erases ≡ true) ⊎ ((count == vc_max) ≡ true))
new_count-ready shrd_jn count h = (true, count, refl, inl refl)
new_count-ready shrd_rw count h = elim (Bool-cases (count == 0)) [
  | inl e ↦ (true, count, rw e refl, inl refl)
  | inr ne ↦
      let full : (count == vc_max) ≡ true = ground arith in (false, 0, rw (ne, full) refl, inr full)
]
new_count-ready shrd_sw count h = elim (Bool-cases (count == 0)) [
  | inl e ↦
      let ok : counts_pages count ≡ true = ground arith in (true, count, rw (ok, e) refl, inl refl)
  | inr ne ↦
      let full : (count == vc_max) ≡ true = ground arith in
      let ok : counts_pages count ≡ true = ground arith in
      (false, 0, rw (ok, ne, full) refl, inr full)
]

-- The head of the free list, of a bank in order.
module _ (t : WriteType) (b : BankState) (nand : Nand) (k : BankOk b nand) (x : ℕ)
    (rest : List ℕ) where
  module _ (e : b.free_list ≡ x ∷ rest) where
    abbrev moved : BankState
    moved = move_block t x b

    moved-free : moved.free_list ≡ rest
    moved-free = rw e (del-head x rest)

    has-free : (y : ℕ) → has y b.free_list ≡ (y == x) || has y rest
    has-free y = rw e refl

    has-moved : (y : ℕ) → has y moved.free_list ≡ has y rest
    has-moved y = ap (has y) moved-free

    whole : IsDistinct (x ∷ rest)
    whole = subst IsDistinct e k.meta.distinct

    still-free : (y : ℕ) → has y moved.free_list ≡ true → has y b.free_list ≡ true
    still-free y h = ground (arith, has-free y, has-moved y)

    not-free : (y : ℕ) → has y b.free_list ≡ false → has y moved.free_list ≡ false
    not-free y h = ground (arith, has-free y, has-moved y)

    x-free : has x b.free_list ≡ true
    x-free = ground (arith, has-free x)

    moved-BankOk : BankOk moved nand
    moved-BankOk = record {
      meta = record {
        distinct = subst IsDistinct (sym moved-free) whole.1;
        counted = λ y h. k.meta.counted y (still-free y h);
        blank = λ y h v. k.meta.blank y (still-free y h) v;
        apart = not-free b.meta_blk k.meta.apart;
        place = k.meta.place;
        written = k.meta.written;
      };
      cursor = λ u. record {
        taken = (not-free (block_of b u) (k.cursor u).taken.0, (k.cursor u).taken.1);
        pages = (k.cursor u).pages;
        unstarted = (k.cursor u).unstarted;
      };
      apart = k.apart;
    }

    moved-Taken : Taken moved x
    moved-Taken = (has-moved x ∙ whole.0, has-apart x b.meta_blk b.free_list x-free k.meta.apart)

    moved-unused : (u : WriteType) → (block_of b u == x) ≡ false
    moved-unused u =
        ground (arith, has-apart x (block_of b u) b.free_list x-free (k.cursor u).taken.0)

-- After the flush, the moved block is still neither free nor in use, with its count and its pages.
flushed-Programs :
    (t : WriteType) (n : ℕ) (c : Core) (nands : Nands) (x : ℕ) (b : BankState)
    → BankOk b (nands n)
    → CoreOk c nands
    → (b.vcount x == 0 || b.vcount x == vc_max) ≡ true
    → ((b.vcount x == vc_max) ≡ true → nands n x ≡ 0)
    → Taken b x
    → ((u : WriteType) → (block_of b u == x) ≡ false)
    → b.write_start t ≡ true
    → c.banks n ≡ b
    → Programs n nands (after_flush t n x (flush_bank n c))
flushed-Programs t n c nands x b bank_ok i counted blank taken unused started same =
    let k = flush_bank-CoreFlushed n c nands (λ m. (i m).meta) in
    let f : Frame b (nands n) (k.next.banks n) (k.after n) =
      subst (λ (z : BankState). Frame z (nands n) (k.next.banks n) (k.after n)) same (k.frame n) in
    let ok : CoreOk k.next k.after = λ m.
      BankOk-Frame (c.banks m) (nands m) (k.next.banks m) (k.after m) (k.frame m) (k.ok m) (i m) in
    let unused_after : (u : WriteType) → (block_of (k.next.banks n) u == x) ≡ false =
      λ u. subst (λ (v : WriteType → ℕ). (v u / 128 == x) ≡ false) (sym f.cur_vpn) (unused u) in
    let started_after : (k.next.banks n).write_start t ≡ true =
      ap (λ (v : WriteType → Bool). v t) f.write_start ∙ started in
    let r = new_count-ready t (b.vcount x) counted in
    let ready : (r.0 ≡ true) ⊎ (k.after n x ≡ 0) = elim r.3 [
      | inl e ↦ inl e
      | inr full ↦ inr (f.pages x taken ∙ blank full)
    ] in
    let at_x : (x == block_of (k.next.banks n) t) ≡ false = ground (arith, unused_after t) in
    let run =
      fresh-Programs t n k.next k.after ok x (f.taken x taken) unused_after started_after k.ops
        nands r.0 r.1 k.runs ready in
    subst (λ (o : Run). Programs n nands (after_flush t n x o)) (sym k.done)
      (rw at_x (
        subst (λ (o : Option (Bool × ℕ)). Programs n nands (fresh t n x k.ops k.next o))
          (sym (ap (new_count t) (f.vcount x taken) ∙ r.2)) run))

abbrev pub is_empty : List ℕ → Bool
is_empty [] = true
is_empty (x ∷ xs) = false

set_at-here : (f : ℕ → BankState) (n : ℕ) (b : BankState) → set_at f n b n ≡ b
set_at-here f n b = let e : (n == n) ≡ true = (==_iff n n).1 refl in rw e refl

-- The last page of a block is written, and some block is free.
new_block-Programs :
    (t : WriteType) (n : ℕ) (c : Core) (nands : Nands)
    → CoreOk c nands
    → ((c.banks n).cur_vpn t % 128 == 127) ≡ true
    → (free : List ℕ) → (c.banks n).free_list ≡ free
    → is_empty free ≡ false
    → Programs n nands (new_block t n c (get_free_block free))
new_block-Programs t n c nands i last [] e some_free = absurd (ground arith)
new_block-Programs t n c nands i last (x ∷ rest) e some_free =
    let b = c.banks n in
    let bm = moved t b (nands n) (i n) x rest e in
    let started : b.write_start t ≡ true = ground (arith, (i n).cursor t, last) in
    let ok = moved-BankOk t b (nands n) (i n) x rest e in
    let free = x-free t b (nands n) (i n) x rest e in
    flushed-Programs t n (set_bank n bm c) nands x bm ok
      (λ m.
        at_bank (λ (j : ℕ) (y : BankState) (nd : Nand). BankOk y (nands j)) c.banks nands n bm
          (nands n) m ok (i m))
      ((i n).meta.counted x free) ((i n).meta.blank x free)
      (moved-Taken t b (nands n) (i n) x rest e) (moved-unused t b (nands n) (i n) x rest e) started
      (set_at-here c.banks n bm)

-- From a core in order, each of the three functions passes its assertions and gives a page, where the
-- block in use has a page left or some block of the bank is free: after the erases and the pages of
-- metadata that are issued, the given page is the next erased page of its block, so that the NAND
-- accepts its program, and then every bank of the core is in order again.
pub assign_new_write_vpn-Programs :
    (t : WriteType) (n : ℕ) (c : Core) (nands : Nands)
    → CoreOk c nands
    → (((c.banks n).cur_vpn t % 128 == 127) && is_empty (c.banks n).free_list) ≡ false
    → Programs n nands (assign_new_write_vpn_of t n c)
unfolding assign_new_write_vpn_of
assign_new_write_vpn-Programs t n c nands i room =
    elim (Bool-cases ((c.banks n).cur_vpn t % 128 == 127)) [
      | inl last ↦
          let free : is_empty (c.banks n).free_list ≡ false = sym (rw last refl) ∙ room in
          rw last (new_block-Programs t n c nands i last (c.banks n).free_list refl free)
      | inr more ↦
          let block : (get_block ((c.banks n).cur_vpn t) == get_block ((c.banks n).cur_vpn t))
              ≡ true =
            (==_iff (get_block ((c.banks n).cur_vpn t)) (get_block ((c.banks n).cur_vpn t))).1
              refl in
          rw (more, block) (advance-Programs t n c nands i more)
    ]
