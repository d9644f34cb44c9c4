-- ===== src/Ring/Insert.antt =====
-- What an insertion at the tail does to the ring that it extends, and to the others.
use shrd_simulator.Base.{
  ℕ, ◌+◌, ◌^◌, ◌<◌, ◌≡◌, ◌≢◌, sym, subst, false, true, ◌==◌, if◌then◌else◌, List, [], ◌∷◌, ◌++◌,
  arith, length, length-append, has, IsDistinct,
}
use shrd_simulator.Ring.{ListHead, IsRing, link_tail}
use shrd_simulator.Ring.Memory.{
  Links, Chain, set_next, set_before, before-has, Chain-append, Chain-retarget, Chain-frame,
}

has-snoc : (a b : ℕ) (xs : List ℕ) → has a xs ≡ false → a ≢ b → has a (xs ++ b ∷ []) ≡ false
has-snoc a b [] h n = ground arith
has-snoc a b (x ∷ xs) h n = ground (arith, has-snoc a b xs)

IsDistinct-snoc :
    (b : ℕ) (xs : List ℕ) → IsDistinct xs → has b xs ≡ false → IsDistinct (xs ++ b ∷ [])
IsDistinct-snoc b [] d h = ground arith
IsDistinct-snoc b (x ∷ xs) d h =
    (has-snoc x b xs d.0 (ground arith), IsDistinct-snoc b xs d.1 (ground arith))

-- The links after an insertion behind the entries that `x` heads.
next-link_tail :
    (l : Links) (q : ListHead) (b a : ℕ)
    → q.size ≢ 0
    → b ≢ q.head
    → (link_tail l q b).0.next a
      ≡ (if a == l.before q.head then b else if a == b then q.head else l.next a)
unfolding link_tail set_next set_before
next-link_tail l q b a s n = ground arith

before-link_tail :
    (l : Links) (q : ListHead) (b a : ℕ)
    → q.size ≢ 0
    → b ≢ q.head
    → (link_tail l q b).0.before a
      ≡ (if a == q.head then b else if a == b then l.before q.head else l.before a)
unfolding link_tail set_next set_before
before-link_tail l q b a s n = ground arith

module _ (l : Links) (q : ListHead) (b : ℕ) where
  head-link_tail : q.size ≢ 0 → (link_tail l q b).1.head ≡ q.head
  unfolding link_tail set_next set_before
  head-link_tail s = ground arith

  size-link_tail : q.size + 1 < 2 ^ 32 → (link_tail l q b).1.size ≡ q.size + 1
  unfolding link_tail set_next set_before
  size-link_tail s = ground arith

  Chain-link_tail :
      (xs : List ℕ)
      → Chain l q.head xs q.head
      → IsDistinct (q.head ∷ xs)
      → has b (q.head ∷ xs) ≡ false
      → q.size ≢ 0
      → Chain (link_tail l q b).0 q.head (xs ++ b ∷ []) q.head
  Chain-link_tail xs c d h s =
      let m = (link_tail l q b).0 in
      let n : b ≢ q.head = ground arith in
      let tail = l.before q.head in
      let old = before-has l q.head xs q.head c in
      Chain-append m q.head xs b [] q.head
        (Chain-retarget l m q.head xs q.head b c d (ground (arith, next-link_tail l q b tail s n))
          (ground (arith, before-link_tail l q b b s n))
          (λ a i o. ground (arith, next-link_tail l q b a s n))
          (λ a i. ground (arith, before-link_tail l q b a s n)))
        (
          ground (arith, next-link_tail l q b b s n),
          ground (arith, before-link_tail l q b q.head s n),
        )

-- The entry is the last of the ring afterwards.
pub link_tail-IsRing :
    (l : Links) (q : ListHead) (b : ℕ) (xs : List ℕ)
    → IsRing l q xs
    → has b xs ≡ false
    → length xs + 1 < 2 ^ 32
    → IsRing (link_tail l q b).0 (link_tail l q b).1 (xs ++ b ∷ [])
link_tail-IsRing l q b [] r h n = unfold link_tail set_next set_before in ground arith
link_tail-IsRing l q b (x ∷ xs) r h n =
    let back = sym r.0 in
    let c = subst (λ y. Chain l y xs y) back r.2 in
    let d : IsDistinct (q.head ∷ xs) = subst (λ y. IsDistinct (y ∷ xs)) back r.3 in
    let out : has b (q.head ∷ xs) ≡ false = subst (λ y. has b (y ∷ xs) ≡ false) back h in
    (
      ground (arith, head-link_tail l q b),
      ground (arith, size-link_tail l q b, length-append xs (b ∷ [])),
      subst (λ y. Chain (link_tail l q b).0 y (xs ++ b ∷ []) y) r.0
          (Chain-link_tail l q b xs c d out (omega arith)),
      IsDistinct-snoc b (x ∷ xs) r.3 h,
    )

-- A ring that shares no entry with the extended one keeps its entries.
pub link_tail-frame :
    (l : Links) (q p : ListHead) (b : ℕ) (xs ys : List ℕ)
    → IsRing l q xs
    → IsRing l p ys
    → has b xs ≡ false
    → has b ys ≡ false
    → ((a : ℕ) → has a ys ≡ true → has a xs ≡ false)
    → IsRing (link_tail l q b).0 p ys
link_tail-frame l q p b xs [] r s out h apart = s
link_tail-frame l q p b [] (y ∷ ys) r s out h apart = (
  s.0,
  s.1,
  unfold link_tail set_next set_before in
      Chain-frame l (link_tail l q b).0 y ys y (λ a i. ground arith) (λ a i. ground arith) s.2,
  s.3,
)
link_tail-frame l q p b (x ∷ xs) (y ∷ ys) r s out h apart = (
  s.0,
  s.1,
  Chain-frame l (link_tail l q b).0 y ys y
      (λ a i. ground (arith, next-link_tail l q b a, tail, apart a i))
      (λ a i. ground (arith, before-link_tail l q b a, apart a i)) s.2,
  s.3,
)
  where
    tail : has (l.before q.head) (x ∷ xs) ≡ true
    tail = subst (λ y. has (l.before y) (x ∷ xs) ≡ true) (sym r.0) (before-has l x xs x r.2)
