-- ===== src/Ring/Move.antt =====
-- The moves of the program: an entry leaves one ring and joins another in the same memory.
use shrd_simulator.Base.{
  ℕ, ◌+◌, ◌^◌, ◌<◌, ◌≡◌, false, true, List, [], ◌∷◌, ◌++◌, arith, length, length-append, has,
  IsDistinct,
}
use shrd_simulator.Ring.{ListHead, IsRing, link_tail, unlink}
use shrd_simulator.Ring.Memory.{Links}
use shrd_simulator.Ring.Insert.{link_tail-IsRing, link_tail-frame}
use shrd_simulator.Ring.Remove.{
  unlink-IsRing, unlink-frame, has-append, IsDistinct-apart, IsDistinct-suffix,
}

abbrev pub Apart : List ℕ → List ℕ → Type 0
Apart xs ys = (a : ℕ) → has a xs ≡ true → has a ys ≡ false

pub IsRing-IsDistinct : (l : Links) (q : ListHead) (xs : List ℕ) → IsRing l q xs → IsDistinct xs
IsRing-IsDistinct l q [] r = tt
IsRing-IsDistinct l q (x ∷ xs) r = r.3

has_self : (b : ℕ) (xs ys : List ℕ) → has b (xs ++ b ∷ ys) ≡ true
has_self b xs ys = ground (arith, has-append b xs (b ∷ ys))

pub not-has_self : (b : ℕ) (xs ys : List ℕ) → IsDistinct (xs ++ b ∷ ys) → has b (xs ++ ys) ≡ false
not-has_self b xs ys d =
    let e = IsDistinct-suffix xs (b ∷ ys) d in
    ground (arith, has-append b xs ys, IsDistinct-apart b xs (b ∷ ys) d)

has_kept : (a b : ℕ) (xs ys : List ℕ) → has a (xs ++ b ∷ ys) ≡ false → has a (xs ++ ys) ≡ false
has_kept a b xs ys h = ground (arith, has-append a xs (b ∷ ys), has-append a xs ys)

length_kept : (b : ℕ) (xs ys : List ℕ) → length (xs ++ b ∷ ys) ≡ length (xs ++ ys) + 1
length_kept b xs ys = omega (arith, length-append xs (b ∷ ys), length-append xs ys)

module _ (l : Links) (q p : ListHead) (b : ℕ) (xs ys zs : List ℕ) where
  -- An entry that is unlinked from one ring and linked behind another, disjoint ring of the same
  -- memory leaves both of them well formed: the first without the entry, in its order, the second
  -- with the entry at its end. The sizes stay below 2 ^ 32.
  pub move-IsRing :
      IsRing l q (xs ++ b ∷ ys)
      → IsRing l p zs
      → Apart zs (xs ++ b ∷ ys)
      → length (xs ++ b ∷ ys) < 2 ^ 32
      → length zs + 1 < 2 ^ 32
      → IsRing (link_tail (unlink l q b).0 p b).0 (unlink l q b).1 (xs ++ ys)
        × IsRing
            (link_tail (unlink l q b).0 p b).0
            (link_tail (unlink l q b).0 p b).1
            (zs ++ b ∷ [])
  move-IsRing from to apart small room =
      let m = (unlink l q b).0 in
      let d = IsRing-IsDistinct l q (xs ++ b ∷ ys) from in
      let from' = unlink-IsRing l q b xs ys from small in
      let to' = unlink-frame l q p b xs ys zs from to apart in
      let out : has b zs ≡ false = ground (arith, apart b, has_self b xs ys) in
      let gone = not-has_self b xs ys d in
      (
        link_tail-frame m p (unlink l q b).1 b zs (xs ++ ys) to' from' out gone
            (λ a i. ground (arith, apart a, has_kept a b xs ys)),
        link_tail-IsRing m p b zs to' out room,
      )
