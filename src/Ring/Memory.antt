-- ===== src/Ring/Memory.antt =====
-- Links in memory, and chains of them: the entries that `next` leads through and `before` back.
use shrd_simulator.Base.{
  ℕ, ◌≡◌, ◌≢◌, true, List, [], ◌∷◌, ◌++◌, arith, ◌==◌, if◌then◌else◌, has, IsDistinct,
}

-- The link fields of all entries in memory.
pub record Links : Type 0 where
  pub next : ℕ → ℕ
  pub before : ℕ → ℕ

unfoldable pub set_next : Links → ℕ → ℕ → Links
set_next l p q = record l { next = λ a. if a == p then q else l.next a }

unfoldable pub set_before : Links → ℕ → ℕ → Links
set_before l p q = record l { before = λ a. if a == p then q else l.before a }

abbrev pub Edge : Links → ℕ → ℕ → Type 0
Edge l p q = (l.next p ≡ q) × (l.before q ≡ p)

-- From `p` through `xs` to `q`.
abbrev pub Chain : Links → ℕ → List ℕ → ℕ → Type 0
Chain l p [] q = Edge l p q
Chain l p (x ∷ xs) q = Edge l p x × Chain l x xs q

module _ (l : Links) where
  pub Chain-append :
      (p : ℕ) (xs : List ℕ) (x : ℕ) (ys : List ℕ) (q : ℕ)
      → Chain l p xs x
      → Chain l x ys q
      → Chain l p (xs ++ x ∷ ys) q
  Chain-append p [] x ys q c d = (c, d)
  Chain-append p (y ∷ xs) x ys q c d = (c.0, Chain-append y xs x ys q c.1 d)

  pub Chain-split :
      (p : ℕ) (xs : List ℕ) (x : ℕ) (ys : List ℕ) (q : ℕ)
      → Chain l p (xs ++ x ∷ ys) q
      → Chain l p xs x × Chain l x ys q
  Chain-split p [] x ys q c = c
  Chain-split p (y ∷ xs) x ys q c = let d = Chain-split y xs x ys q c.1 in ((c.0, d.0), d.1)

  -- The entry before the end is the last one, or the start.
  pub before-has : (p : ℕ) (xs : List ℕ) (q : ℕ) → Chain l p xs q → has (l.before q) (p ∷ xs) ≡ true
  before-has p [] q c = ground arith
  before-has p (x ∷ xs) q c = ground (arith, before-has x xs q c.1)

-- A chain depends on the links of its own entries only.
pub Chain-frame :
    (l m : Links) (p : ℕ) (xs : List ℕ) (q : ℕ)
    → ((a : ℕ) → has a (p ∷ xs) ≡ true → m.next a ≡ l.next a)
    → ((a : ℕ) → has a (q ∷ xs) ≡ true → m.before a ≡ l.before a)
    → Chain l p xs q
    → Chain m p xs q
Chain-frame l m p [] q f g c = ground (arith, f p, g q)
Chain-frame l m p (x ∷ xs) q f g c = (
  ground (arith, f p, g x),
  Chain-frame l m x xs q (λ a h. f a (ground arith)) (λ a h. g a (ground arith)) c.1,
)

-- The last edge of a chain can be led elsewhere.
pub Chain-retarget :
    (l m : Links) (p : ℕ) (xs : List ℕ) (q t : ℕ)
    → Chain l p xs q
    → IsDistinct (p ∷ xs)
    → m.next (l.before q) ≡ t
    → m.before t ≡ l.before q
    → ((a : ℕ) → has a (p ∷ xs) ≡ true → a ≢ l.before q → m.next a ≡ l.next a)
    → ((a : ℕ) → has a xs ≡ true → m.before a ≡ l.before a)
    → Chain m p xs t
Chain-retarget l m p [] q t c d e h f g = ground arith
Chain-retarget l m p (x ∷ xs) q t c d e h f g = (
  ground (arith, f p, g x, before-has l x xs q c.1),
  Chain-retarget l m x xs q t c.1 d.1 e h (λ a i n. f a (ground arith) n)
      (λ a i. g a (ground arith)),
)
