-- ===== src/Atl/Cache/Coherent.antt =====
-- The cache does not change what the map says: get_map_page brings the page and keeps the view.
use shrd_simulator.Base.{
  ℕ, ◌≤◌, ◌<◌, ◌≡◌, ◌≢◌, refl, sym, ap, subst, ◌∙◌, inl, inr, false, Option, none, some, List, ◌∷◌,
  ◌++◌, arith, ltb, Bool-cases, Option-cases, length, length-append,
}
use shrd_simulator.Atl.Cache.State.{CacheMap, Cache, vc_max_page, num_cached_map, prof_intra_gc}
use shrd_simulator.Atl.Cache.{hit, miss_free, map_read}
use shrd_simulator.Atl.Cache.Lookup.{look, IsUnique, IsUnique-drop, look-front}

-- An entry of the map: in the slot of its page, or in NAND.
abbrev pub view_of : Option ℕ → (slots : ℕ → ℕ → ℕ) → (nand : ℕ → ℕ) → ℕ → ℕ
view_of none slots nand k = nand k
view_of (some s) slots nand k = slots s k

abbrev pub view : Cache → (page k : ℕ) → ℕ
view c p k = view_of (look p c.lru) c.slots (c.nand p) k

pub record Coherent (c : Cache) : Type 0 where
  pub unique : IsUnique c.lru
  pub apart : (p q s : ℕ) → look p c.lru ≡ some s → look q c.lru ≡ some s → p ≡ q
  pub bound : (p s : ℕ) → look p c.lru ≡ some s → s < c.num_cached
  pub clean : (p s k : ℕ) → look p c.lru ≡ some s → c.dirty s ≡ false → c.slots s k ≡ c.nand p k
  pub proper : look vc_max_page c.lru ≡ none
  pub size : c.num_cached ≡ length c.lru
  pub room : c.num_cached ≤ num_cached_map

-- After get_map_page: the page is in the slot, and the map says what it said.
pub record Brought (page slot : ℕ) (c d : Cache) : Type 0 where
  pub coherent : Coherent d
  pub there : look page d.lru ≡ some slot
  pub same_view : (p k : ℕ) → view d p k ≡ view c p k
  pub same_log : d.map_log ≡ c.map_log

-- A cache whose list gives the same slots is as good.
reordered-Brought :
    (page slot : ℕ) (c : Cache) (lru : List CacheMap)
    → Coherent c
    → ((q : ℕ) → look q c.lru ≡ look q lru)
    → IsUnique lru
    → length c.lru ≡ length lru
    → look page c.lru ≡ some slot
    → Brought page slot c (record c { lru = lru })
reordered-Brought page slot c lru i same u n e = record {
  coherent = record {
    unique = u;
    apart = λ p q s a b. i.apart p q s (same p ∙ a) (same q ∙ b);
    bound = λ p s a. i.bound p s (same p ∙ a);
    clean = λ p s k a. i.clean p s k (same p ∙ a);
    proper = sym (same vc_max_page) ∙ i.proper;
    size = i.size ∙ n;
    room = i.room;
  };
  there = sym (same page) ∙ e;
  same_view = λ p k. ap (λ m. view_of m c.slots (c.nand p) k) (sym (same p));
  same_log = refl;
}

pub hit-Brought :
    (flag : ℕ) (front : List CacheMap) (e : CacheMap) (back : List CacheMap) (c : Cache)
    → Coherent c
    → c.lru ≡ front ++ e ∷ back
    → Brought e.map_page e.cache_slot c (hit flag front e back c).1
unfolding hit
hit-Brought flag front e back c i whole =
    let u = subst IsUnique whole i.unique in
    let found : look e.map_page c.lru ≡ some e.cache_slot =
      ap (look e.map_page) whole ∙ (ground (arith, look-front e.map_page front e back u)) in
    elim (Bool-cases (ltb flag prof_intra_gc)) [
      | inl moves ↦ rw moves (
          reordered-Brought e.map_page e.cache_slot c (e ∷ front ++ back) i
            (λ q. ap (look q) whole ∙ look-front q front e back u)
            ((IsUnique-drop front e back u).1, (IsUnique-drop front e back u).0)
            (ap length whole
              ∙ omega (arith, length-append front (e ∷ back), length-append front back))
            found)
      | inr stays ↦
          rw stays
            (reordered-Brought e.map_page e.cache_slot c c.lru i (λ q. refl) i.unique refl found)
    ]

pub miss_free-Brought :
    (page : ℕ) (c : Cache)
    → Coherent c
    → page ≢ vc_max_page
    → look page c.lru ≡ none
    → c.num_cached < num_cached_map
    → Brought page (miss_free page c).0 c (miss_free page c).1
unfolding miss_free map_read
miss_free-Brought page c i ne gone room = record {
  coherent = record {
    unique = (gone, i.unique);
    apart = λ p q s a b. ground (arith, i.apart p q s, i.bound p s, i.bound q s);
    bound = λ p s a. ground (arith, i.bound p s);
    clean = λ p s k a d. ground (arith, i.clean p s k, i.bound p s);
    proper = ground (arith, i.proper);
    size = omega (arith, i.size);
    room = omega arith;
  };
  there = ground arith;
  same_view = λ p k. seen p k;
  same_log = refl;
}
  where
    seen : (p k : ℕ) → view (miss_free page c).1 p k ≡ view c p k
    seen p k = elim (Option-cases (look p c.lru)) [
      | inl away ↦ ground (arith, away)
      | inr (s, at) ↦ ground (arith, at, gone, i.bound p s)
    ]
