-- ===== src/Ring/Remove.antt =====
-- What a removal does to the ring that it shortens.
use shrd_simulator.Base.{
  ℕ, suc, ◌+◌, ◌^◌, ◌<◌, ◌≡◌, refl, append-nil, ◌||◌, false, true, List, [], ◌∷◌, ◌++◌, arith,
  length, ◌==◌, if◌then◌else◌, length-append, has, IsDistinct,
}
use shrd_simulator.Ring.{ListHead, IsRing, unlink}
use shrd_simulator.Ring.Memory.{
  Links, Chain, set_next, set_before, before-has, Chain-append, Chain-split, Chain-retarget,
  Chain-frame,
}

-- The neighbours of the removed entry point at one another afterwards.
next-unlink :
    (l : Links) (q : ListHead) (b a : ℕ)
    → (unlink l q b).0.next a ≡ (if a == l.before b then l.next b else l.next a)
unfolding unlink set_next set_before
next-unlink l q b a = ground arith

before-unlink :
    (l : Links) (q : ListHead) (b a : ℕ)
    → (unlink l q b).0.before a ≡ (if a == l.next b then l.before b else l.before a)
unfolding unlink set_next set_before
before-unlink l q b a = ground arith

size-unlink :
    (l : Links) (q : ListHead) (b n : ℕ)
    → q.size ≡ suc n
    → suc n < 2 ^ 32
    → (unlink l q b).1.size ≡ n
unfolding unlink
size-unlink l q b n e h = ground arith

head-unlink :
    (l : Links) (q : ListHead) (b n : ℕ)
    → q.size ≡ suc (suc n)
    → suc (suc n) < 2 ^ 32
    → (unlink l q b).1.head ≡ (if q.head == b then l.next b else q.head)
unfolding unlink
head-unlink l q b n e h = ground arith

pub has-append : (a : ℕ) (xs ys : List ℕ) → has a (xs ++ ys) ≡ (has a xs || has a ys)
has-append a [] ys = refl
has-append a (x ∷ xs) ys = ground (arith, has-append a xs ys)

pub IsDistinct-apart :
    (a : ℕ) (xs ys : List ℕ) → IsDistinct (xs ++ ys) → has a xs ≡ true → has a ys ≡ false
IsDistinct-apart a [] ys d h = cc
IsDistinct-apart a (x ∷ xs) ys d h =
    ground (arith, IsDistinct-apart a xs ys d.1, has-append x xs ys)

pub IsDistinct-drop : (b : ℕ) (xs ys : List ℕ) → IsDistinct (xs ++ b ∷ ys) → IsDistinct (xs ++ ys)
IsDistinct-drop b [] ys d = d.1
IsDistinct-drop b (x ∷ xs) ys d =
    (ground (arith, has-append x xs (b ∷ ys), has-append x xs ys), IsDistinct-drop b xs ys d.1)

IsDistinct-prefix : (xs ys : List ℕ) → IsDistinct (xs ++ ys) → IsDistinct xs
IsDistinct-prefix [] ys d = tt
IsDistinct-prefix (x ∷ xs) ys d = (ground (arith, has-append x xs ys), IsDistinct-prefix xs ys d.1)

pub IsDistinct-suffix : (xs ys : List ℕ) → IsDistinct (xs ++ ys) → IsDistinct ys
IsDistinct-suffix [] ys d = d
IsDistinct-suffix (x ∷ xs) ys d = IsDistinct-suffix xs ys d.1

-- The chain closes over the place of the removed entry.
module _ (l : Links) (q : ListHead) (b : ℕ) where
  Chain-unlink_first :
      (y : ℕ) (ys : List ℕ)
      → Chain l b (y ∷ ys) b
      → IsDistinct (b ∷ y ∷ ys)
      → Chain (unlink l q b).0 y ys y
  Chain-unlink_first y ys c d =
      let m = (unlink l q b).0 in
      let before = l.before b in
      Chain-retarget l m y ys b y c.1 d.1 (ground (arith, next-unlink l q b before))
        (ground (arith, before-unlink l q b y)) (λ a i o. ground (arith, next-unlink l q b a))
        (λ a i. ground (arith, before-unlink l q b a))

  Chain-unlink_last :
      (x : ℕ) (xs : List ℕ)
      → Chain l x (xs ++ b ∷ []) x
      → IsDistinct (x ∷ xs ++ b ∷ [])
      → Chain (unlink l q b).0 x xs x
  Chain-unlink_last x xs c d =
      let m = (unlink l q b).0 in
      let before = l.before b in
      let (front, last) = Chain-split l x xs b [] x c in
      Chain-retarget l m x xs b x front (IsDistinct-prefix (x ∷ xs) (b ∷ []) d)
        (ground (arith, next-unlink l q b before)) (ground (arith, before-unlink l q b x))
        (λ a i o. ground (arith, next-unlink l q b a))
        (λ a i. ground (arith, before-unlink l q b a, IsDistinct-prefix (x ∷ xs) (b ∷ []) d))

  Chain-unlink_middle :
      (x : ℕ) (xs : List ℕ) (y : ℕ) (ys : List ℕ)
      → Chain l x (xs ++ b ∷ y ∷ ys) x
      → IsDistinct (x ∷ xs ++ b ∷ y ∷ ys)
      → Chain (unlink l q b).0 x (xs ++ y ∷ ys) x
  Chain-unlink_middle x xs y ys c d =
      let m = (unlink l q b).0 in
      let before = l.before b in
      let (front, back) = Chain-split l x xs b (y ∷ ys) x c in
      let last = before-has l x xs b front in
      let apart = λ (a : ℕ). IsDistinct-apart a (x ∷ xs) (b ∷ y ∷ ys) d in
      let front_set = IsDistinct-prefix (x ∷ xs) (b ∷ y ∷ ys) d in
      let back_set = IsDistinct-suffix (x ∷ xs) (b ∷ y ∷ ys) d in
      Chain-append m x xs y ys x
        (Chain-retarget l m x xs b y front front_set (ground (arith, next-unlink l q b before))
          (ground (arith, before-unlink l q b y)) (λ a i o. ground (arith, next-unlink l q b a))
          (λ a i. ground (arith, before-unlink l q b a, apart a)))
        (Chain-frame l m y ys x (λ a i. ground (arith, next-unlink l q b a, apart before last))
          (λ a i. ground (arith, before-unlink l q b a, apart x)) back.1)

-- The neighbours of an entry are in its ring.
neighbours-has :
    (l : Links) (q : ListHead) (b : ℕ) (xs ys : List ℕ)
    → IsRing l q (xs ++ b ∷ ys)
    → (has (l.before b) (xs ++ b ∷ ys) ≡ true) × (has (l.next b) (xs ++ b ∷ ys) ≡ true)
neighbours-has l q b [] [] r = ground arith
neighbours-has l q b [] (y ∷ ys) r = ground (arith, before-has l b (y ∷ ys) b r.2)
neighbours-has l q b (x ∷ xs) [] r =
    let (front, back) = Chain-split l x xs b [] x r.2 in
    ground (arith, before-has l x xs b front, has-append (l.before b) (x ∷ xs) (b ∷ []))
neighbours-has l q b (x ∷ xs) (y ∷ ys) r =
    let (front, back) = Chain-split l x xs b (y ∷ ys) x r.2 in
    ground (
      arith,
      before-has l x xs b front,
      has-append (l.before b) (x ∷ xs) (b ∷ y ∷ ys),
      has-append y (x ∷ xs) (b ∷ y ∷ ys),
    )

-- The removed entry leaves the ring, and the order of the others stays.
pub unlink-IsRing :
    (l : Links) (q : ListHead) (b : ℕ) (xs ys : List ℕ)
    → IsRing l q (xs ++ b ∷ ys)
    → length (xs ++ b ∷ ys) < 2 ^ 32
    → IsRing (unlink l q b).0 (unlink l q b).1 (xs ++ ys)
unlink-IsRing l q b [] [] r n = size-unlink l q b 0 r.1 n
unlink-IsRing l q b [] (y ∷ ys) r n = (
  ground (arith, head-unlink l q b (length ys)),
  size-unlink l q b (suc (length ys)) r.1 n,
  Chain-unlink_first l q b y ys r.2 r.3,
  r.3.1,
)
unlink-IsRing l q b (x ∷ xs) [] r n =
    let e = length-append xs (b ∷ []) in
    rw append-nil (
      ground (arith, head-unlink l q b (length xs), has-append x xs (b ∷ [])),
      size-unlink l q b (suc (length xs)) (omega arith) (omega arith),
      Chain-unlink_last l q b x xs r.2 r.3,
      IsDistinct-prefix (x ∷ xs) (b ∷ []) r.3,
    )
unlink-IsRing l q b (x ∷ xs) (y ∷ ys) r n =
    let e = length-append xs (b ∷ y ∷ ys) in
    let e' = length-append xs (y ∷ ys) in
    (
      ground (arith, head-unlink l q b (length xs + suc (length ys)), has-append x xs (b ∷ y ∷ ys)),
      ground (arith, size-unlink l q b (suc (length xs + suc (length ys)))),
      Chain-unlink_middle l q b x xs y ys r.2 r.3,
      IsDistinct-drop b (x ∷ xs) (y ∷ ys) r.3,
    )

-- A ring that shares no entry with the shortened one keeps its entries.
pub unlink-frame :
    (l : Links) (q p : ListHead) (b : ℕ) (xs ys zs : List ℕ)
    → IsRing l q (xs ++ b ∷ ys)
    → IsRing l p zs
    → ((a : ℕ) → has a zs ≡ true → has a (xs ++ b ∷ ys) ≡ false)
    → IsRing (unlink l q b).0 p zs
unlink-frame l q p b xs ys [] r s apart = s
unlink-frame l q p b xs ys (z ∷ zs) r s apart =
    let near = neighbours-has l q b xs ys r in
    (
      s.0,
      s.1,
      Chain-frame l (unlink l q b).0 z zs z
          (λ a i. ground (arith, next-unlink l q b a, near, apart a i))
          (λ a i. ground (arith, before-unlink l q b a, near, apart a i)) s.2,
      s.3,
    )
