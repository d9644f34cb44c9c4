-- ===== src/Ring/Tests.antt =====
-- The rings on concrete memories.
use shrd_simulator.Base.{◌≡◌, refl, some, [], ◌∷◌, arith, ◌==◌, if◌then◌else◌}
use shrd_simulator.Ring.{ListHead, IsRing, link_tail, unlink, del_blk_from_list}
use shrd_simulator.Ring.Memory.{Links}
use shrd_simulator.Ring.Move.{Apart, move-IsRing}
use shrd_simulator.Ring.Blocks.{IsBlockRing, del_blk-IsBlockRing}

-- A ring of 1, 2 and 3, and one of 5.
abbrev links : Links
links = record {
  next = λ a. if a == 1 then 2 else if a == 2 then 3 else if a == 5 then 5 else 1;
  before = λ a. if a == 1 then 3 else if a == 2 then 1 else if a == 5 then 5 else 2;
}

abbrev three : ListHead
three = record { head = 1; size = 3 }

abbrev one : ListHead
one = record { head = 5; size = 1 }

three-IsRing : IsRing links three (1 ∷ 2 ∷ 3 ∷ [])
three-IsRing =
    (refl, refl, ((refl, refl), ((refl, refl), (refl, refl))), (refl, (refl, (refl, tt))))

one-IsRing : IsRing links one (5 ∷ [])
one-IsRing = (refl, refl, (refl, refl), (refl, tt))

one-Apart : Apart (5 ∷ []) (1 ∷ 2 ∷ 3 ∷ [])
one-Apart a h = ground arith

move-IsRing_example :
    IsRing (link_tail (unlink links three 2).0 one 2).0 (unlink links three 2).1 (1 ∷ 3 ∷ [])
    × IsRing
        (link_tail (unlink links three 2).0 one 2).0
        (link_tail (unlink links three 2).0 one 2).1
        (5 ∷ 2 ∷ [])
move-IsRing_example =
    move-IsRing links three one 2 (1 ∷ []) (3 ∷ []) (5 ∷ []) three-IsRing one-IsRing one-Apart
      (omega arith) (omega arith)

del_blk-IsBlockRing_example :
    (m : Links) × (q' : ListHead) × (del_blk_from_list links 1 three ≡ some (m, q'))
    × IsBlockRing m q' (0 ∷ 2 ∷ [])
del_blk-IsBlockRing_example =
    del_blk-IsBlockRing links three 1 (0 ∷ []) (2 ∷ []) three-IsRing (omega arith)
