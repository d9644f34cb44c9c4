-- ===== src/Ring/Blocks.antt =====
-- The block lists of a bank: insertion at either end, and removal of a block by its number.
use shrd_simulator.Base.{
  ℕ, suc, ◌+◌, ◌^◌, ◌<◌, ◌≡◌, refl, ap, subst, false, some, List, [], ◌∷◌, ◌++◌, map, arith, length,
  length-append, has, IsDistinct, ◌∙◌,
}
use shrd_simulator.Ring.{
  ListHead, IsRing, block_ptr, link_tail, unlink, insert_bl_front, insert_bl_tail,
  del_blk_from_list,
}
use shrd_simulator.Ring.Memory.{Links, set_next, set_before, Chain-split}
use shrd_simulator.Ring.Insert.{link_tail-IsRing}
use shrd_simulator.Ring.Move.{not-has_self}
use shrd_simulator.Ring.Remove.{unlink-IsRing, IsDistinct-drop}
use mathlib.Core.List.{map-append, append-nil}

-- A ring of blocks, named by their numbers.
abbrev pub IsBlockRing : Links → ListHead → List ℕ → Type 0
IsBlockRing l q xs = IsRing l q (map block_ptr xs)

rotate-IsDistinct : (b : ℕ) (xs : List ℕ) → IsDistinct (xs ++ b ∷ []) → IsDistinct (b ∷ xs)
rotate-IsDistinct b xs d =
    let e = append-nil xs in
    (
      subst (λ ys. has b ys ≡ false) e (not-has_self b xs [] d),
      subst IsDistinct e (IsDistinct-drop b xs [] d),
    )

-- A ring may be headed by its last entry.
rotate :
    (l : Links) (q : ListHead) (b : ℕ) (xs : List ℕ)
    → IsRing l q (xs ++ b ∷ [])
    → IsRing l (record q { head = b }) (b ∷ xs)
rotate l q b [] r = ground arith
rotate l q b (x ∷ xs) r =
    let (front, last) = Chain-split l x xs b [] x r.2 in
    (
      refl,
      omega (arith, r.1, length-append xs (b ∷ [])),
      (last, front),
      rotate-IsDistinct b (x ∷ xs) r.3,
    )

length-map : (xs : List ℕ) → length (map block_ptr xs) ≡ length xs
length-map [] = refl
length-map (x ∷ xs) = ap suc (length-map xs)

has-map : (b : ℕ) (xs : List ℕ) → has (block_ptr b) (map block_ptr xs) ≡ has b xs
has-map b [] = refl
has-map b (x ∷ xs) = ground (arith, has-map b xs)

module _ (l : Links) (q : ListHead) (b : ℕ) (xs : List ℕ) where
  tail :
      IsBlockRing l q xs
      → has b xs ≡ false
      → length xs + 1 < 2 ^ 32
      → IsRing
          (link_tail l q (block_ptr b)).0
          (link_tail l q (block_ptr b)).1
          (map block_ptr xs ++ block_ptr b ∷ [])
  tail r h n =
      link_tail-IsRing l q (block_ptr b) (map block_ptr xs) r (has-map b xs ∙ h)
        (omega (arith, length-map xs))

  -- In a ring of fewer than 2 ^ 32 - 1 blocks without the given one, `insert_bl_tail` puts the block
  -- behind the others.
  insert_bl_tail-IsBlockRing :
      IsBlockRing l q xs
      → has b xs ≡ false
      → length xs + 1 < 2 ^ 32
      → IsBlockRing (insert_bl_tail l b q).0 (insert_bl_tail l b q).1 (xs ++ b ∷ [])
  unfolding insert_bl_tail
  insert_bl_tail-IsBlockRing r h n = rw (map-append block_ptr xs (b ∷ [])) (tail r h n)

  -- In a ring of fewer than 2 ^ 32 - 1 blocks without the given one, `insert_bl_front` puts the
  -- block before the others.
  insert_bl_front-IsBlockRing :
      IsBlockRing l q xs
      → has b xs ≡ false
      → length xs + 1 < 2 ^ 32
      → IsBlockRing (insert_bl_front l b q).0 (insert_bl_front l b q).1 (b ∷ xs)
  unfolding insert_bl_front
  insert_bl_front-IsBlockRing r h n =
      rotate (link_tail l q (block_ptr b)).0 (link_tail l q (block_ptr b)).1 (block_ptr b)
        (map block_ptr xs) (tail r h n)

-- In a list that holds the block, the assertions of the removal pass, and it is `unlink`.
del_blk-eq-unlink :
    (l : Links) (q : ListHead) (b : ℕ) (xs ys : List ℕ)
    → IsRing l q (map block_ptr xs ++ block_ptr b ∷ ys)
    → length (map block_ptr xs ++ block_ptr b ∷ ys) < 2 ^ 32
    → del_blk_from_list l b q ≡ some (unlink l q (block_ptr b))
unfolding del_blk_from_list unlink set_next set_before
del_blk-eq-unlink l q b [] [] r n = ground arith
del_blk-eq-unlink l q b [] (y ∷ ys) r n = ground arith
del_blk-eq-unlink l q b (x ∷ xs) ys r n =
    ground (arith, length-append (map block_ptr xs) (block_ptr b ∷ ys))

-- From a ring of fewer than 2 ^ 32 blocks, `del_blk_from_list` takes a block out wherever it stands:
-- no assertion fails, and the others keep their order.
pub del_blk-IsBlockRing :
    (l : Links) (q : ListHead) (b : ℕ) (xs ys : List ℕ)
    → IsBlockRing l q (xs ++ b ∷ ys)
    → length (xs ++ b ∷ ys) < 2 ^ 32
    → (m : Links) × (q' : ListHead) × (del_blk_from_list l b q ≡ some (m, q'))
      × IsBlockRing m q' (xs ++ ys)
del_blk-IsBlockRing l q b xs ys r n =
    let e = map-append block_ptr xs (b ∷ ys) in
    let r' = subst (IsRing l q) e r in
    let n' = subst (λ zs. length zs < 2 ^ 32) e (omega (arith, length-map (xs ++ b ∷ ys))) in
    let u = unlink l q (block_ptr b) in
    (
      u.0,
      u.1,
      del_blk-eq-unlink l q b xs (map block_ptr ys) r' n',
      rw (map-append block_ptr xs ys)
          (unlink-IsRing l q (block_ptr b) (map block_ptr xs) (map block_ptr ys) r' n'),
    )
