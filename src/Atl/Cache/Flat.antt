-- ===== src/Atl/Cache/Flat.antt =====
-- The page map behind the cache is a flat map: get_vpn and set_vpn read and write it.
use shrd_simulator.Base.{
  ℕ, ◌/◌, ◌%◌, ◌<◌, ◌≡◌, ◌≢◌, refl, sym, ap, subst, ◌∙◌, inl, inr, true, false, Option, none, some,
  List, [], ◌∷◌, arith, ◌==◌, ltb, Bool-cases, Option-cases, length, not, ◌&&◌,
}
use shrd_simulator.Atl.Cache.State.{
  CacheMap, Cache, vc_max_page, num_cached_map, num_pages_per_map, num_map_page,
}
use shrd_simulator.Atl.Cache.{
  split_last, hit, miss, miss_full, miss_free, found_or_missed, get_map_page, get_vpn, is_entry,
  num_lpn,
}
use shrd_simulator.Atl.Cache.Lookup.{look, search-cases, split_last-some}
use shrd_simulator.Atl.Cache.Coherent.{
  view_of, view, Coherent, Brought, hit-Brought, miss_free-Brought,
}
use shrd_simulator.Atl.Cache.Evict.{miss_full-Brought}

abbrev pub Brings : ℕ → Cache → Option (ℕ × Cache) → Type 0
Brings page c r = (slot : ℕ) × (d : Cache) × (r ≡ some (slot, d)) × Brought page slot c d

tail-Brings :
    (page flag : ℕ) (c : Cache) (lru : List CacheMap)
    → Coherent c
    → page ≢ vc_max_page
    → look page c.lru ≡ none
    → (c.num_cached == num_cached_map) ≡ true
    → c.lru ≡ lru
    → Brings page c (miss page flag (split_last lru) c)
unfolding miss
tail-Brings page flag c [] i ne gone full e = absurd (ground (arith, i.size, ap length e))
tail-Brings page flag c (x ∷ lru) i ne gone full e =
    let (front, l, run, whole) = split_last-some x lru in
    let r = miss_full page flag front l c in
    (r.0, r.1, rw (full, run) refl, miss_full-Brought page front l c i ne gone (e ∙ whole) flag)

miss-Brings :
    (page flag : ℕ) (c : Cache)
    → Coherent c
    → page ≢ vc_max_page
    → look page c.lru ≡ none
    → Brings page c (miss page flag (split_last c.lru) c)
unfolding miss
miss-Brings page flag c i ne gone = elim (Bool-cases (c.num_cached == num_cached_map)) [
  | inl full ↦ tail-Brings page flag c c.lru i ne gone full refl
  | inr free ↦
      let r = miss_free page c in
      (r.0, r.1, rw free refl, miss_free-Brought page c i ne gone (ground (arith, i.room)))
]

-- From a coherent cache, get_map_page brings a map page to a slot whatever the flag, by a hit, into a
-- free slot or in place of the tail of the LRU list: the cache is coherent again, the list gives
-- that slot for the page, and the map as a whole, cached and in NAND, says what it said before.
pub get_map_page-Brings :
    (page flag : ℕ) (c : Cache)
    → Coherent c
    → page ≢ vc_max_page
    → Brings page c (get_map_page page flag c)
unfolding get_map_page found_or_missed
get_map_page-Brings page flag c i ne = elim (search-cases page c.lru) [
  | inl (run, gone) ↦ rw run (miss-Brings page flag c i ne gone)
  | inr (front, e, back, run, whole, here) ↦
      let r = hit flag front e back c in
      (
        r.0,
        r.1,
        rw run refl,
        subst (λ p. Brought p r.0 c r.1) here (hit-Brought flag front e back c i whole),
      )
]

-- What the map says of a logical page: the map log first.
abbrev pub entry_of : Option ℕ → ℕ → ℕ
entry_of none vpn = vpn
entry_of (some logged) vpn = logged

abbrev pub entry : Cache → ℕ → ℕ
entry c lpn = entry_of (c.map_log lpn) (view c (lpn / num_pages_per_map) (lpn % num_pages_per_map))

abbrev pub Valid : Cache → Type 0
Valid c = Coherent c × ((lpn : ℕ) → is_entry (entry c lpn) ≡ true)

pub Brought-entry :
    (page slot : ℕ) (c d : Cache) → Brought page slot c d → (l : ℕ) → entry d l ≡ entry c l
Brought-entry page slot c d b l =
    let log = ap (λ (m : ℕ → Option ℕ). m l) b.same_log in
    let seen = b.same_view (l / num_pages_per_map) (l % num_pages_per_map) in
    ground (arith, log, seen)

pub proper_page : (lpn : ℕ) → lpn < num_lpn → (lpn / num_pages_per_map) ≢ vc_max_page
proper_page lpn h e = omega arith

in_range :
    (lpn : ℕ)
    → lpn < num_lpn
    → not (ltb lpn num_lpn && ltb (lpn / num_pages_per_map) num_map_page) ≡ false
in_range lpn h = ground arith

module _ (lpn flag : ℕ) (small : lpn < num_lpn) where
  get_vpn-logged :
      (c : Cache) (vpn : ℕ) → c.map_log lpn ≡ some vpn → get_vpn lpn flag c ≡ some (vpn, c)
  unfolding get_vpn
  get_vpn-logged c vpn log = rw (in_range lpn small, log) refl

  get_vpn-cached :
      (c d : Cache) (slot vpn : ℕ)
      → c.map_log lpn ≡ none
      → get_map_page (lpn / num_pages_per_map) flag c ≡ some (slot, d)
      → d.slots slot (lpn % num_pages_per_map) ≡ vpn
      → is_entry vpn ≡ true
      → get_vpn lpn flag c ≡ some (vpn, d)
  unfolding get_vpn
  get_vpn-cached c d slot vpn log run value good =
      rw (in_range lpn small, log, run, value, good) refl

  cached-entry :
      (c d : Cache) (slot : ℕ)
      → c.map_log lpn ≡ none
      → Brought (lpn / num_pages_per_map) slot c d
      → d.slots slot (lpn % num_pages_per_map) ≡ entry c lpn
  cached-entry c d slot log b =
      let page = lpn / num_pages_per_map in
      let k = lpn % num_pages_per_map in
      sym (ap (λ m. view_of m d.slots (d.nand page) k) b.there)
      ∙ b.same_view page k
      ∙ sym (ap (λ m. entry_of m (view c page k)) log)

  -- For a logical page in range, of a coherent cache whose entries are all entries of a map, get_vpn
  -- passes its assertions, gives the entry of the page, from the map log or from the map, and
  -- changes no entry.
  pub get_vpn-entry :
      (c : Cache)
      → Valid c
      → (d : Cache) × (get_vpn lpn flag c ≡ some (entry c lpn, d))
        × Valid d
        × ((l : ℕ) → entry d l ≡ entry c l)
  get_vpn-entry c v = elim (Option-cases (c.map_log lpn)) [
    | inr (vpn, log) ↦
        (c, get_vpn-logged c vpn log ∙ ap (λ m. some (m, c)) (sym (logged c vpn log)), v, λ l. refl)
    | inl unlogged ↦
        let (slot, d, run, b) =
          get_map_page-Brings (lpn / num_pages_per_map) flag c v.0 (proper_page lpn small) in
        let same = Brought-entry (lpn / num_pages_per_map) slot c d b in
        (
          d,
          get_vpn-cached c d slot (entry c lpn) unlogged run (cached-entry c d slot unlogged b)
              (v.1 lpn),
          (b.coherent, λ l. ap is_entry (same l) ∙ v.1 l),
          same,
        )
  ]
    where
      logged : (c : Cache) (vpn : ℕ) → c.map_log lpn ≡ some vpn → entry c lpn ≡ vpn
      logged c vpn log =
          ap (λ m. entry_of m (view c (lpn / num_pages_per_map) (lpn % num_pages_per_map))) log
