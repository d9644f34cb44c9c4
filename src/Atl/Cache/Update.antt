-- ===== src/Atl/Cache/Update.antt =====
-- set_vpn changes one entry of the page map.
use shrd_simulator.Base.{
  ℕ, ◌/◌, ◌%◌, ◌<◌, ◌≡◌, refl, ap, inl, inr, true, false, Option, none, some, arith, ◌==◌, ltb,
  if◌then◌else◌, Bool-cases, Option-cases, not, ◌&&◌,
}
use shrd_simulator.Atl.Cache.State.{Cache, num_pages_per_map, num_map_page, set_at}
use shrd_simulator.Atl.Cache.{set_vpn, is_entry, num_lpn}
use shrd_simulator.Atl.Cache.Lookup.{look}
use shrd_simulator.Atl.Cache.Coherent.{view, Coherent, Brought}
use shrd_simulator.Atl.Cache.Flat.{entry, Valid, proper_page, get_map_page-Brings}

module _ (lpn vpn : ℕ) where
  -- The map log forgets the page, and then its entry is written to the slot.
  abbrev unlogged : Cache → Cache
  unlogged c = record c { map_log = set_at c.map_log lpn none }

  abbrev stored : ℕ → Cache → Cache
  stored slot d = record d {
    slots = set_at d.slots slot (set_at (d.slots slot) (lpn % num_pages_per_map) vpn);
    dirty = set_at d.dirty slot true;
  }

  unlogged-Coherent : (c : Cache) → Coherent c → Coherent (unlogged c)
  unlogged-Coherent c i = record {
    unique = i.unique;
    apart = i.apart;
    bound = i.bound;
    clean = i.clean;
    proper = i.proper;
    size = i.size;
    room = i.room;
  }

  stored-Coherent : (slot : ℕ) (d : Cache) → Coherent d → Coherent (stored slot d)
  stored-Coherent slot d i = record {
    unique = i.unique;
    apart = i.apart;
    bound = i.bound;
    clean = λ p s k a c. ground (arith, i.clean p s k a);
    proper = i.proper;
    size = i.size;
    room = i.room;
  }

  stored-view :
      (slot : ℕ) (d : Cache) (p k : ℕ)
      → Coherent d
      → look (lpn / num_pages_per_map) d.lru ≡ some slot
      → view (stored slot d) p k ≡ (
          if (p == lpn / num_pages_per_map) && (k == lpn % num_pages_per_map)
          then vpn
          else view d p k)
  stored-view slot d p k i there = elim (Option-cases (look p d.lru)) [
    | inl away ↦ ground (arith, away, there)
    | inr (s, at) ↦ ground (arith, at, there, i.apart p (lpn / num_pages_per_map) s at)
  ]

  same_place :
      (l : ℕ)
      → ((l / num_pages_per_map == lpn / num_pages_per_map)
          && (l % num_pages_per_map == lpn % num_pages_per_map))
        ≡ (l == lpn)
  same_place l = ground arith

  stored-entry :
      (slot : ℕ) (c d : Cache) (l : ℕ)
      → Brought (lpn / num_pages_per_map) slot (unlogged c) d
      → entry (stored slot d) l ≡ (if l == lpn then vpn else entry c l)
  stored-entry slot c d l b =
      let seen =
        stored-view slot d (l / num_pages_per_map) (l % num_pages_per_map) b.coherent b.there in
      let kept = b.same_view (l / num_pages_per_map) (l % num_pages_per_map) in
      let log = ap (λ (m : ℕ → Option ℕ). m l) b.same_log in
      elim (Bool-cases (l == lpn)) [
        | inl here ↦ ground (arith, seen, log, same_place l)
        | inr other ↦ ground (arith, seen, kept, log, same_place l)
      ]

  passes :
      lpn < num_lpn
      → is_entry vpn ≡ true
      → not (ltb lpn num_lpn && ltb (lpn / num_pages_per_map) num_map_page && is_entry vpn) ≡ false
  passes small good = ground arith

  -- For a logical page in range and an entry of a map, from a valid cache, set_vpn passes its
  -- assertions, and then the entry of the page is the new one, and all other entries are the old
  -- ones.
  pub set_vpn-entry :
      (flag : ℕ) (c : Cache)
      → lpn < num_lpn
      → is_entry vpn ≡ true
      → Valid c
      → (d : Cache) × (set_vpn lpn vpn flag c ≡ some d)
        × Valid d
        × ((l : ℕ) → entry d l ≡ (if l == lpn then vpn else entry c l))
  unfolding set_vpn
  set_vpn-entry flag c small good v =
      let (slot, d, run, b) =
        get_map_page-Brings (lpn / num_pages_per_map) flag (unlogged c) (unlogged-Coherent c v.0)
          (proper_page lpn small) in
      let e = λ (l : ℕ). stored-entry slot c d l b in
      (
        stored slot d,
        rw (passes small good, run) refl,
        (stored-Coherent slot d b.coherent, λ l. ground (arith, e l, v.1 l)),
        e,
      )
