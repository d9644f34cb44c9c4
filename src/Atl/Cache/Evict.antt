-- ===== src/Atl/Cache/Evict.antt =====
-- A full cache: the tail of the list gives up its slot, after it has gone back to NAND if dirty.
use shrd_simulator.Base.{
  ℕ, ◌≡◌, ◌≢◌, refl, sym, ap, subst, ◌∙◌, ◌⊎◌, inl, inr, false, none, some, List, [], ◌∷◌, ◌++◌,
  arith, ◌==◌, ltb, if◌then◌else◌, Bool-cases, Option-cases, length, length-append, append-nil,
}
use shrd_simulator.Atl.Cache.State.{CacheMap, Cache, vc_max_page, prof_intra_gc, set_at}
use shrd_simulator.Atl.Cache.{evict, miss_full, map_read, map_write}
use shrd_simulator.Atl.Cache.Lookup.{look, IsUnique, look-append, IsUnique-drop, IsUnique-snoc}
use shrd_simulator.Atl.Cache.Coherent.{view, Coherent, Brought}

-- The tail gives up its slot to another page.
module _ (page : ℕ) (front : List CacheMap) (e : CacheMap) (c : Cache) (i : Coherent c)
    (ne : page ≢ vc_max_page) (gone : look page c.lru ≡ none)
    (whole : c.lru ≡ front ++ e ∷ []) where
  front-IsUnique : IsUnique (front ++ []) × (look e.map_page (front ++ []) ≡ none)
  front-IsUnique = IsUnique-drop front e [] (subst IsUnique whole i.unique)

  front-look : (q : ℕ) → q ≢ e.map_page → look q front ≡ look q c.lru
  front-look q other = sym (
      ap (look q) whole ∙ ground (arith, look-append q front (e ∷ []), Option-cases (look q front)))

  front_gone : look e.map_page front ≡ none
  front_gone = ap (look e.map_page) (sym (append-nil front)) ∙ front-IsUnique.1

  tail_found : look e.map_page c.lru ≡ some e.cache_slot
  tail_found =
      ap (look e.map_page) whole ∙ ground (arith, look-append e.map_page front (e ∷ []), front_gone)

  tail_page : e.map_page ≢ vc_max_page
  tail_page h = ground (arith, i.proper, tail_found)

  other_page : e.map_page ≢ page
  other_page h = ground (arith, gone, tail_found)

  -- NAND after the victim has gone back.
  abbrev kept : ℕ → ℕ → ℕ
  kept = if c.dirty e.cache_slot then set_at c.nand e.map_page (c.slots e.cache_slot) else c.nand

  kept-other : (q k : ℕ) → q ≢ e.map_page → kept q k ≡ c.nand q k
  kept-other q k other = ground arith

  kept-victim : (k : ℕ) → kept e.map_page k ≡ c.slots e.cache_slot k
  kept-victim k = elim (Bool-cases (c.dirty e.cache_slot)) [
    | inl dirty ↦ ground (arith, dirty)
    | inr clean ↦ rw clean (sym (i.clean e.map_page e.cache_slot k tail_found clean))
  ]

  abbrev filled : List CacheMap → Cache
  filled lru = record c {
    slots = set_at c.slots e.cache_slot (kept page);
    nand = kept;
    dirty = set_at c.dirty e.cache_slot false;
    lru = lru;
  }

  -- A page that stays has its old slot, which is not the victim's.
  stays :
      (q s : ℕ)
      → look q front ≡ some s
      → (look q c.lru ≡ some s) × (s ≢ e.cache_slot) × (q ≢ e.map_page)
  stays q s h =
      let other : q ≢ e.map_page = λ same. ground (arith, front_gone) in
      let old = sym (front-look q other) ∙ h in
      (old, (λ same. other (i.apart q e.map_page s old (tail_found ∙ ap some (sym same)))), other)

  module _ (lru : List CacheMap)
      (same : (q : ℕ) → look q lru ≡ (if page == q then some e.cache_slot else look q front)) where
    filled_cases :
        (q s : ℕ)
        → look q lru ≡ some s
        → ((q ≡ page) × (s ≡ e.cache_slot)) ⊎ ((q ≢ page) × (look q front ≡ some s))
    filled_cases q s h = ground (arith, same q)

    filled_clean :
        (p s k : ℕ)
        → look p lru ≡ some s
        → (filled lru).dirty s ≡ false
        → (filled lru).slots s k ≡ kept p k
    filled_clean p s k h d = elim (filled_cases p s h) [
      | inl (here, slot) ↦ ground arith
      | inr (other, old) ↦
          let (there, apart, away) = stays p s old in
          ground (arith, i.clean p s k there, kept-other p k away)
    ]

    view-filled : (p k : ℕ) → view (filled lru) p k ≡ view c p k
    view-filled p k = elim (Bool-cases (page == p)) [
      | inl here ↦ ground (arith, same p, gone, kept-other p k, other_page)
      | inr other ↦ elim (Option-cases (look p front)) [
        | inr (s, old) ↦ let (there, apart, away) = stays p s old in ground (arith, same p, there)
        | inl absent ↦ elim (Bool-cases (p == e.map_page)) [
          | inl victim ↦ ground (arith, same p, tail_found, kept-victim k)
          | inr none_of ↦ ground (arith, same p, front-look p, kept-other p k)
        ]
      ]
    ]

    filled-Brought :
        IsUnique lru → length lru ≡ length c.lru → Brought page e.cache_slot c (filled lru)
    filled-Brought u n = record {
      coherent = record {
        unique = u;
        apart = λ p q s a b.
            ground
              (arith, filled_cases p s a, filled_cases q s b, i.apart p q s, stays p s, stays q s);
        bound = λ p s a. ground (
          arith,
          filled_cases p s a,
          i.bound p s,
          stays p s,
          i.bound e.map_page e.cache_slot tail_found,
        );
        clean = filled_clean;
        proper = ground (arith, same vc_max_page, front-look vc_max_page, tail_page, i.proper);
        size = i.size ∙ sym n;
        room = i.room;
      };
      there = ground (arith, same page);
      same_view = view-filled;
      same_log = refl;
    }

  abbrev moved : CacheMap
  moved = record e { map_page = page }

  moved_lru : (flag : ℕ) → List CacheMap
  moved_lru flag = if ltb flag prof_intra_gc then moved ∷ front else front ++ moved ∷ []

  miss_full-filled :
      (flag : ℕ) → miss_full page flag front e c ≡ (e.cache_slot, filled (moved_lru flag))
  unfolding miss_full evict map_read map_write moved_lru
  miss_full-filled flag =
      let usual : (e.map_page == vc_max_page) ≡ false = ground (arith, tail_page) in
      elim (Bool-cases (c.dirty e.cache_slot)) [
        | inl dirty ↦ rw (usual, dirty) refl
        | inr clean ↦ rw (usual, clean) refl
      ]

  pub miss_full-Brought :
      (flag : ℕ)
      → Brought page (miss_full page flag front e c).0 c (miss_full page flag front e c).1
  unfolding moved_lru
  miss_full-Brought flag =
      let same = miss_full-filled flag in
      let absent : look page front ≡ none = front-look page (λ h. other_page (sym h)) ∙ gone in
      let unique = subst IsUnique (append-nil front) front-IsUnique.0 in
      let n = ap length whole in
      subst (λ (r : ℕ × Cache). Brought page r.0 c r.1) (sym same)
        (elim (Bool-cases (ltb flag prof_intra_gc)) [
          | inl front_first ↦ rw front_first (
              filled-Brought (moved ∷ front) (λ q. refl) (absent, unique)
                (omega (arith, n, length-append front (e ∷ []))))
          | inr last ↦ rw last (
              filled-Brought (front ++ moved ∷ [])
                (λ q.
                  ground
                    (arith, look-append q front (moved ∷ []), absent, Option-cases (look q front)))
                (IsUnique-snoc front moved unique absent)
                (omega (arith, n, length-append front (e ∷ []), length-append front (moved ∷ []))))
        ])
