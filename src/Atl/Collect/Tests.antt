-- ===== src/Atl/Collect/Tests.antt =====
-- The victim list of ATLWrapper.cpp on concrete inputs.
use shrd_simulator.Base.{◌+◌, ◌*◌, ◌≡◌, refl, some, [], ◌∷◌, arith, ◌==◌, if◌then◌else◌}
use shrd_simulator.Atl.Write.Nand.{Nand}
use shrd_simulator.Atl.Collect.{GcBank, erase_victim_block, first_empty}
use shrd_simulator.Atl.Collect.Erase.{Blank, Freed, erase_victim_block-Freed}

-- Three victims, of which the second has no valid page, and no block of the garbage collection.
abbrev bank : GcBank
bank = record {
  victim_list = 4 ∷ 7 ∷ 9 ∷ [];
  free_list = 2 ∷ 3 ∷ [];
  vcount = λ x. if x == 4 then 5 else if x == 9 then 600 else 0;
  gc_blk = 0xffffffff;
  cur_vt_vpn = 7 * 512 + 3;
}

abbrev worn : Nand
worn = λ x. 128

bank-Blank : Blank (2 ∷ 3 ∷ []) bank.vcount worn
bank-Blank = record {
  distinct = (refl, (refl, tt));
  counted = λ y h. ground arith;
  blank = λ y h v. ground arith;
}

seven : first_empty (4 ∷ 7 ∷ 9 ∷ []) bank.vcount ≡ some 7
unfolding first_empty
seven = refl

erase_victim_block-Freed_example : Freed 7 worn (erase_victim_block bank)
erase_victim_block-Freed_example =
    erase_victim_block-Freed bank worn 7 bank-Blank (refl, (refl, (refl, tt))) refl seven
      (λ y h. ground arith) refl
