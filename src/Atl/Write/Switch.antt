-- ===== src/Atl/Write/Switch.antt =====
-- bank_meta_flush of ATLWrapper.cpp: the block of the metadata is full, and is erased or changed.
use shrd_simulator.Base.{
  ℕ, ◌≡◌, refl, sym, ap, subst, ◌∙◌, true, false, Option, none, some, List, [], ◌∷◌, ◌++◌, arith,
  ◌==◌, ◌||◌, has, leb, IsDistinct, Bool-cases, inl, inr, ◌⊎◌,
}
use shrd_simulator.Atl.Cache.State.{vc_max, set_at}
use shrd_simulator.Atl.Write.{
  BankState, BlockOp, erase_block, switched, switch_meta, erase_switched, get_free_block, del_blk,
  insert_tail_blk, set_count,
}
use shrd_simulator.Atl.Write.Nand.{
  Nand, run_ops, has-tail, tail-IsDistinct, has-apart, del-head, FreeOk, MetaOk, Taken, Frame,
}

-- A step of the flush: what it issues runs on the NAND, the next state is in order, and the frame
-- holds.
pub record Step (b : BankState) (nand : Nand) (r : Option (BankState × List BlockOp))
    (at : BankState → ℕ) : Type 0 where
  pub next : BankState
  pub ops : List BlockOp
  pub done : r ≡ some (next, ops)
  pub after : Nand
  pub runs : run_ops ops nand ≡ some after
  pub ok : FreeOk next after (at next)
  pub frame : Frame b nand next after

pub kept-Frame : (b : BankState) (nand : Nand) → Frame b nand b nand
kept-Frame b nand = record {
  data_list = refl;
  rw_log_list = refl;
  jn_log_list = refl;
  cur_vpn = refl;
  write_start = refl;
  taken = λ x t. t;
  pages = λ x t. refl;
  vcount = λ x t. refl;
}

abbrev pub cur_meta : BankState → ℕ
cur_meta b = b.cur_meta_vpn

pub set_at-same : (f : Nand) (x v : ℕ) → set_at f x v x ≡ v
set_at-same f x v = ground arith

pub set_at-other : (f : Nand) (x y v : ℕ) → (y == x) ≡ false → set_at f x v y ≡ f y
set_at-other f x y v e = rw e refl

-- The block of the metadata is full and no block is free: it is erased.
none-Step :
    (b : BankState) (nand : Nand)
    → MetaOk b nand
    → b.cur_meta_vpn ≡ 0
    → Step b nand (switched none b) cur_meta
unfolding run_ops
none-Step b nand i zero_at = record {
  next = b;
  ops = erase_block b.meta_blk ∷ [];
  done = refl;
  after = set_at nand b.meta_blk 0;
  runs = refl;
  ok = record {
    distinct = i.distinct;
    counted = i.counted;
    blank = λ x h v. ground (arith, i.blank x h v);
    apart = i.apart;
    place = i.place;
    written = set_at-same nand b.meta_blk 0 ∙ sym zero_at;
  };
  frame = record {
    data_list = refl;
    rw_log_list = refl;
    jn_log_list = refl;
    cur_vpn = refl;
    write_start = refl;
    taken = λ x t. t;
    pages = λ x t. set_at-other nand b.meta_blk x 0 t.1;
    vcount = λ x t. refl;
  };
}

-- The free list after the switch: its rest, then the block that the metadata has left.
switch-free :
    (s : ℕ) (rest : List ℕ) (m : ℕ) → del_blk s (insert_tail_blk m (s ∷ rest)) ≡ rest ++ (m ∷ [])
switch-free s rest m = del-head s (rest ++ (m ∷ []))

-- A free block takes the place of the full block of the metadata, erased before or now.
module _ (b : BankState) (nand : Nand) (i : MetaOk b nand) (zero_at : b.cur_meta_vpn ≡ 0) where
  module _ (s : ℕ) (rest : List ℕ) (e : b.free_list ≡ s ∷ rest) where
    abbrev list_after : List ℕ
    list_after = del_blk s (insert_tail_blk b.meta_blk b.free_list)

    list_after-is : list_after ≡ rest ++ (b.meta_blk ∷ [])
    list_after-is = rw e (switch-free s rest b.meta_blk)

    has-after : (x : ℕ) → has x list_after ≡ has x rest || (x == b.meta_blk)
    has-after x = rw list_after-is (has-tail x b.meta_blk rest)

    has-before : (x : ℕ) → has x b.free_list ≡ (x == s) || has x rest
    has-before x = rw e refl

    whole : IsDistinct (s ∷ rest)
    whole = subst IsDistinct e i.distinct

    s-free : has s b.free_list ≡ true
    s-free = ground (arith, has-before s)

    s-meta : (s == b.meta_blk) ≡ false
    s-meta = ground (arith, has-before b.meta_blk, i.apart)

    meta-rest : has b.meta_blk rest ≡ false
    meta-rest = ground (arith, has-before b.meta_blk, i.apart)

    after-cases : (x : ℕ) → has x list_after ≡ true → (has x rest ≡ true) ⊎ (x ≡ b.meta_blk)
    after-cases x h = ground (arith, has-after x)

    rest-free : (x : ℕ) → has x rest ≡ true → has x b.free_list ≡ true
    rest-free x h = ground (arith, has-before x)

    switched-FreeOk :
        (count : ℕ → ℕ) (after : Nand)
        → ((x : ℕ) → has x rest ≡ true → (count x ≡ b.vcount x) × (after x ≡ nand x))
        → count b.meta_blk ≡ 0
        → after s ≡ 0
        → FreeOk
            (record {
              free_list = list_after;
              data_list = b.data_list;
              rw_log_list = b.rw_log_list;
              jn_log_list = b.jn_log_list;
              vcount = count;
              cur_vpn = b.cur_vpn;
              write_start = b.write_start;
              meta_blk = s;
              cur_meta_vpn = b.cur_meta_vpn;
              meta_start = b.meta_start;
            })
            after
            b.cur_meta_vpn
    switched-FreeOk count after same meta0 s0 = record {
      distinct =
          subst IsDistinct (sym list_after-is) (tail-IsDistinct b.meta_blk rest whole.1 meta-rest);
      counted = λ x h. elim (after-cases x h) [
        | inl r ↦ ground (arith, (same x r).0, i.counted x (rest-free x r))
        | inr at ↦ ground (arith, ap count at, meta0)
      ];
      blank = λ x h v. elim (after-cases x h) [
        | inl r ↦ (same x r).1 ∙ i.blank x (rest-free x r) (ground (arith, (same x r).0))
        | inr at ↦ absurd (ground (arith, ap count at, meta0))
      ];
      apart = ground (arith, has-after s, whole.0, s-meta);
      place = i.place;
      written = s0 ∙ sym zero_at;
    }

    Taken-after : (x : ℕ) → Taken b x → (has x list_after ≡ false) × ((x == s) ≡ false)
    Taken-after x t =
        (ground (arith, has-after x, has-before x, t), ground (arith, has-before x, t))

    switched-Frame :
        (count : ℕ → ℕ) (after : Nand)
        → ((x : ℕ) → Taken b x → (count x ≡ b.vcount x) × (after x ≡ nand x))
        → Frame b nand
            (record {
              free_list = list_after;
              data_list = b.data_list;
              rw_log_list = b.rw_log_list;
              jn_log_list = b.jn_log_list;
              vcount = count;
              cur_vpn = b.cur_vpn;
              write_start = b.write_start;
              meta_blk = s;
              cur_meta_vpn = b.cur_meta_vpn;
              meta_start = b.meta_start;
            })
            after
    switched-Frame count after same = record {
      data_list = refl;
      rw_log_list = refl;
      jn_log_list = refl;
      cur_vpn = refl;
      write_start = refl;
      taken = Taken-after;
      pages = λ x t. (same x t).1;
      vcount = λ x t. (same x t).0;
    }

    abbrev count_after : ℕ → ℕ
    count_after = set_at b.vcount b.meta_blk 0

    count_after-other : (x : ℕ) → (x == b.meta_blk) ≡ false → count_after x ≡ b.vcount x
    count_after-other x h = rw h refl

    rest-meta : (x : ℕ) → has x rest ≡ true → (x == b.meta_blk) ≡ false
    rest-meta x h = has-apart x b.meta_blk rest h meta-rest

    rest-s : (x : ℕ) → has x rest ≡ true → (x == s) ≡ false
    rest-s x h = has-apart x s rest h whole.0

    -- The count of the free block says that it is not erased.
    erased-Step :
        (b.vcount s == 0) ≡ true → Step b nand (erase_switched s (switch_meta s b)) cur_meta
    unfolding run_ops
    erased-Step zero_count =
        let both : (x : ℕ)
            → (x == s) ≡ false
            → (x == b.meta_blk) ≡ false
            → (set_at count_after s vc_max x ≡ b.vcount x) × (set_at nand s 0 x ≡ nand x) =
          λ x not_s not_meta. (rw (not_s, not_meta) refl, rw not_s refl) in
        record {
          next = set_count s vc_max (switch_meta s b);
          ops = erase_block s ∷ [];
          done =
              let small : leb (b.vcount s) 1024 ≡ true = ground arith in
              rw (s-meta, zero_count, small) refl;
          after = set_at nand s 0;
          runs = refl;
          ok =
              switched-FreeOk (set_at count_after s vc_max) (set_at nand s 0)
                (λ x h. both x (rest-s x h) (rest-meta x h)) (ground arith) (set_at-same nand s 0);
          frame =
              switched-Frame (set_at count_after s vc_max) (set_at nand s 0)
                (λ x t. both x (Taken-after x t).1 t.1);
        }

    -- The free block is erased: nothing is issued for it.
    blank-Step :
        (b.vcount s == 0) ≡ false → Step b nand (erase_switched s (switch_meta s b)) cur_meta
    unfolding run_ops
    blank-Step some_count =
        let full : (b.vcount s == vc_max) ≡ true = ground (arith, i.counted s s-free) in
        record {
          next = switch_meta s b;
          ops = [];
          done = rw (s-meta, some_count, full) (ground arith);
          after = nand;
          runs = refl;
          ok =
              switched-FreeOk count_after nand (λ x h. (count_after-other x (rest-meta x h), refl))
                (set_at-same b.vcount b.meta_blk 0) (i.blank s s-free full);
          frame = switched-Frame count_after nand (λ x t. (count_after-other x t.1, refl));
        }

    some-Step : Step b nand (erase_switched s (switch_meta s b)) cur_meta
    some-Step = elim (Bool-cases (b.vcount s == 0)) [ inl e ↦ erased-Step e | inr n ↦ blank-Step n ]

  pub switched-Step :
      (free : List ℕ) → b.free_list ≡ free → Step b nand (switched (get_free_block free) b) cur_meta
  switched-Step [] e = none-Step b nand i zero_at
  switched-Step (s ∷ rest) e = some-Step s rest e
