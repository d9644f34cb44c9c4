-- ===== src/Atl/Cache/Lookup.antt =====
-- Which slot the LRU list gives a map page, and that its moves keep this.
use shrd_simulator.Base.{
  ℕ, ◌≡◌, refl, ap, ◌⊎◌, inl, inr, Option, none, some, List, [], ◌∷◌, ◌++◌, arith, ◌==◌,
  if◌then◌else◌, Bool-cases,
}
use shrd_simulator.Atl.Cache.State.{CacheMap}
use shrd_simulator.Atl.Cache.{search, split_last}

abbrev pub look : ℕ → List CacheMap → Option ℕ
look p [] = none
look p (e ∷ es) = if e.map_page == p then some e.cache_slot else look p es

-- No page stands in the list twice.
abbrev pub IsUnique : List CacheMap → Type 0
IsUnique [] = Unit {0}
IsUnique (e ∷ es) = (look e.map_page es ≡ none) × IsUnique es

pub look-append :
    (p : ℕ) (xs ys : List CacheMap)
    → look p (xs ++ ys) ≡ elim (look p xs) [ none ↦ look p ys | some s ↦ some s ]
look-append p [] ys = refl
look-append p (x ∷ xs) ys = elim (Bool-cases (x.map_page == p)) [
  | inl here ↦ rw here refl
  | inr there ↦ rw there (look-append p xs ys)
]

pub IsUnique-drop :
    (xs : List CacheMap) (e : CacheMap) (ys : List CacheMap)
    → IsUnique (xs ++ e ∷ ys)
    → IsUnique (xs ++ ys) × (look e.map_page (xs ++ ys) ≡ none)
IsUnique-drop [] e ys u = (u.1, u.0)
IsUnique-drop (x ∷ xs) e ys u =
    let r = IsUnique-drop xs e ys u.1 in
    (
      (ground (arith, look-append x.map_page xs (e ∷ ys), look-append x.map_page xs ys, u.0), r.0),
      ground (arith, look-append x.map_page xs (e ∷ ys), u.0, r.1),
    )

pub IsUnique-snoc :
    (xs : List CacheMap) (e : CacheMap)
    → IsUnique xs
    → look e.map_page xs ≡ none
    → IsUnique (xs ++ e ∷ [])
IsUnique-snoc [] e u h = (refl, tt)
IsUnique-snoc (x ∷ xs) e u h =
    (ground (arith, look-append x.map_page xs (e ∷ []), u.0), IsUnique-snoc xs e u.1 (ground arith))

-- An entry taken to the front.
pub look-front :
    (q : ℕ) (xs : List CacheMap) (e : CacheMap) (ys : List CacheMap)
    → IsUnique (xs ++ e ∷ ys)
    → look q (xs ++ e ∷ ys) ≡ look q (e ∷ xs ++ ys)
look-front q [] e ys u = refl
look-front q (x ∷ xs) e ys u =
    ground (arith, look-front q xs e ys u.1, look-append x.map_page xs (e ∷ ys), u.0)

abbrev Found : ℕ → List CacheMap → Type 0
Found p es =
    (front : List CacheMap) × (e : CacheMap) × (back : List CacheMap) × (search p es
      ≡ some (front, e, back))
    × (es ≡ front ++ e ∷ back)
    × (e.map_page ≡ p)

-- The walk finds the page, or the page is not in the list.
pub search-cases :
    (p : ℕ) (es : List CacheMap) → ((search p es ≡ none) × (look p es ≡ none)) ⊎ Found p es
unfolding search
search-cases p [] = inl (refl, refl)
search-cases p (x ∷ es) = elim (Bool-cases (x.map_page == p)) [
  | inl here ↦ inr ([], x, es, rw here refl, refl, ground arith)
  | inr there ↦ elim (search-cases p es) [
    | inl (gone, away) ↦ inl (rw (there, gone) refl, rw there away)
    | inr (front, e, back, run, whole, page) ↦
        inr (x ∷ front, e, back, rw (there, run) refl, ap (λ l. x ∷ l) whole, page)
  ]
]

-- The tail of a list that has entries.
pub split_last-some :
    (x : CacheMap) (es : List CacheMap)
    → (front : List CacheMap) × (e : CacheMap) × (split_last (x ∷ es) ≡ some (front, e))
      × (x ∷ es ≡ front ++ e ∷ [])
unfolding split_last
split_last-some x [] = ([], x, refl, refl)
split_last-some x (y ∷ es) =
    let (front, e, run, whole) = split_last-some y es in
    (x ∷ front, e, rw run refl, ap (λ l. x ∷ l) whole)
