-- ===== src/Atl/Cache.antt =====
-- The demand-loaded page map: get_map_page with its LRU cache, get_vpn and set_vpn.
--
-- The LRU list is the list of its entries, most recent first. `nand` is what the map pages in NAND
-- hold: `map_read` copies a page from there to a slot, `map_write` copies it back; where the pages
-- lie in NAND is not modelled. The map log of the garbage collection is a function `map_log`.
pub mod State
pub mod Coherent
pub mod Lookup
pub mod Evict
pub mod Flat
pub mod Update
use shrd_simulator.Base.{
  ℕ, zero, suc, ◌+◌, ◌-◌, ◌*◌, ◌/◌, ◌%◌, Bool, true, false, Option, none, some, List, [], ◌∷◌, ◌++◌,
  ◌==◌, leb, ltb, if◌then◌else◌, not, ◌&&◌, ◌||◌,
}
use shrd_simulator.Config.{num_lblk, pages_per_blk, lpage_per_ppage}
use shrd_simulator.Atl.Cache.State.{
  CacheMap, Cache, vc_max, vc_max_page, num_cached_map, num_pages_per_map, num_map_page,
  prof_intra_gc, write_buffer_bit, num_pvpn, set_at,
}

-- map_read: a map page comes to a slot.
pub map_read : (map_page slot : ℕ) → Cache → Cache
map_read page slot c = record c { slots = set_at c.slots slot (c.nand page) }

-- map_write: a slot goes back to its map page.
pub map_write : (map_page slot : ℕ) → Cache → Cache
map_write page slot c = record c { nand = set_at c.nand page (c.slots slot) }

-- The walk over the LRU list: the entries before the page, its entry, and those behind it.
pub search : ℕ → List CacheMap → Option (List CacheMap × CacheMap × List CacheMap)
search page [] = none
search page (e ∷ es) =
    if e.map_page == page
    then some ([], e, es)
    else elim (search page es) [ none ↦ none | some (front, f, back) ↦ some (e ∷ front, f, back) ]

-- The tail of the list, with the entries before it.
pub split_last : List CacheMap → Option (List CacheMap × CacheMap)
split_last [] = none
split_last (e ∷ es) = elim (split_last es) [
  | none ↦ some ([], e)
  | some (front, l) ↦ some (e ∷ front, l)
]

-- A hit: the entry moves to the front, but not for the garbage collection.
pub hit : (flag : ℕ) → List CacheMap → CacheMap → List CacheMap → Cache → ℕ × Cache
hit flag front e back c =
    (e.cache_slot, if ltb flag prof_intra_gc then record c { lru = e ∷ front ++ back } else c)

-- A miss while a slot is free.
pub miss_free : (map_page : ℕ) → Cache → ℕ × Cache
unfolding map_read
miss_free page c =
    let d = map_read page c.num_cached c in
    (
      c.num_cached,
      record d {
        num_cached = c.num_cached + 1;
        lru = record { cache_slot = c.num_cached; map_page = page } ∷ c.lru;
      },
    )

-- The victim goes back to NAND when it is dirty.
pub evict : CacheMap → Cache → Cache
unfolding map_write
evict e c =
    let d = if c.dirty e.cache_slot then map_write e.map_page e.cache_slot c else c in
    if e.map_page == vc_max_page then c else record d { dirty = set_at c.dirty e.cache_slot false }

-- A miss in a full cache: the tail gives up its slot, and moves to the front, but not for the
-- garbage collection.
pub miss_full : (map_page flag : ℕ) → List CacheMap → CacheMap → Cache → ℕ × Cache
unfolding evict map_read
miss_full page flag front e c =
    let d = map_read page e.cache_slot (evict e c) in
    let f = record e { map_page = page } in
    (e.cache_slot, record d { lru = if ltb flag prof_intra_gc then f ∷ front else front ++ f ∷ [] })

-- A miss. A full cache without entries would be a null pointer.
pub miss : (map_page flag : ℕ) → Option (List CacheMap × CacheMap) → Cache → Option (ℕ × Cache)
unfolding miss_free miss_full
miss page flag last c =
    if not (c.num_cached == num_cached_map)
    then some (miss_free page c)
    else elim last [ none ↦ none | some (front, e) ↦ some (miss_full page flag front e c) ]

pub found_or_missed :
    (map_page flag : ℕ)
    → Option (List CacheMap × CacheMap × List CacheMap)
    → Cache
    → Option (ℕ × Cache)
unfolding hit miss split_last
found_or_missed page flag none c = miss page flag (split_last c.lru) c
found_or_missed page flag (some (front, e, back)) c = some (hit flag front e back c)

-- get_map_page
pub get_map_page : (map_page flag : ℕ) → Cache → Option (ℕ × Cache)
unfolding search found_or_missed
get_map_page page flag c = found_or_missed page flag (search page c.lru) c

-- RSP_ASSERT on an entry of the map.
unfoldable pub is_entry : ℕ → Bool
is_entry vpn = ltb vpn num_pvpn || vpn == vc_max || leb write_buffer_bit vpn

abbrev pub num_lpn : ℕ
num_lpn = num_lblk * pages_per_blk * lpage_per_ppage

-- get_vpn; `none` is RSP_ASSERT.
pub get_vpn : (lpn flag : ℕ) → Cache → Option (ℕ × Cache)
get_vpn lpn flag c =
    if not (ltb lpn num_lpn && ltb (lpn / num_pages_per_map) num_map_page)
    then none
    else elim (c.map_log lpn) [
      | some vpn ↦ some (vpn, c)
      | none ↦ elim (get_map_page (lpn / num_pages_per_map) flag c) [
        | none ↦ none
        | some (slot, d) ↦
            if is_entry (d.slots slot (lpn % num_pages_per_map))
            then some (d.slots slot (lpn % num_pages_per_map), d)
            else none
      ]
    ]

-- set_vpn; `none` is RSP_ASSERT.
pub set_vpn : (lpn vpn flag : ℕ) → Cache → Option Cache
set_vpn lpn vpn flag c =
    let c₁ = record c { map_log = set_at c.map_log lpn none } in
    if not (ltb lpn num_lpn && ltb (lpn / num_pages_per_map) num_map_page && is_entry vpn)
    then none
    else elim (get_map_page (lpn / num_pages_per_map) flag c₁) [
      | none ↦ none
      | some (slot, d) ↦ some (record d {
        slots = set_at d.slots slot (set_at (d.slots slot) (lpn % num_pages_per_map) vpn);
        dirty = set_at d.dirty slot true;
      })
    ]
