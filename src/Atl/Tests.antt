-- ===== src/Atl/Tests.antt =====
-- ATLWrapper.cpp on concrete inputs.
use shrd_simulator.Base.{
  ℕ, ◌+◌, ◌-◌, ◌*◌, ◌≤◌, ◌≡◌, refl, true, false, some, none, [], ◌∷◌, arith, ◌==◌, if◌then◌else◌,
}
use shrd_simulator.Atl.Victim.{
  Bank, Counted, Candidate, on_going, get_vt_vblock, get_vt_vblock-least,
}
use shrd_simulator.Atl.Headers.{
  Headers, twrite_header_handler, find_twrite_o_lpn, find_twrite_entry, o_lpn_of, place,
  remained_of,
}
use shrd_simulator.Atl.Headers.Find.{handler-find}
use shrd_simulator.Atl.Cache.State.{Cache, CacheMap}
use shrd_simulator.Atl.Cache.{get_map_page, get_vpn, set_vpn, is_entry}
use shrd_simulator.Atl.Cache.Coherent.{Coherent}
use shrd_simulator.Atl.Cache.Flat.{Brings, entry, Valid, get_map_page-Brings, get_vpn-entry}
use shrd_simulator.Atl.Cache.Update.{set_vpn-entry}

abbrev slot_of : (slot page : ℕ) → CacheMap
slot_of slot page = record { cache_slot = slot; map_page = page }

-- Three data blocks, of which the second is being written.
abbrev bank : Bank
bank = record {
  data_list = 4 ∷ 7 ∷ 9 ∷ [];
  vcount = λ block. if block == 9 then 300 else 700;
  cur_write_vpn = 7 * 128 + 5;
  cur_write_vpn_rw = 4 * 128 + 127;
  cur_write_vpn_jn = 0;
  cur_gc_vpn = 0;
}

bank-Counted : Counted bank
bank-Counted x = ground arith

nine_waits : Candidate bank (4 ∷ 7 ∷ 9 ∷ []) 9
unfolding on_going
nine_waits = (refl, refl)

get_vt_vblock-least_example :
    (r : ℕ) × (get_vt_vblock bank ≡ some r)
    × Candidate bank (4 ∷ 7 ∷ 9 ∷ []) r
    × ((y : ℕ) → Candidate bank (4 ∷ 7 ∷ 9 ∷ []) y → bank.vcount r ≤ bank.vcount y)
get_vt_vblock-least_example = get_vt_vblock-least bank 9 bank-Counted nine_waits (omega arith)

abbrev headers : Headers
headers = record {
  free_twrites = 128;
  rw_twrites = [];
  jn_twrites = [];
  rw_epoch = 0;
  jn_epoch = 0;
}

abbrev originals : ℕ → ℕ
originals i = 20 + i

-- The number of the core in the build: 0 - 1.
abbrev this_core : ℕ
this_core = 0xffff_ffff

none_earlier : find_twrite_entry this_core 13893634 [] ≡ none
unfolding find_twrite_entry
none_earlier = refl

some_expected : (remained_of this_core 27787265 5 == 0) ≡ false
unfolding remained_of
some_expected = refl

handler-find_example :
    (s' s'' : Headers) × (twrite_header_handler this_core 27787265 5 originals headers ≡ some s')
    × (find_twrite_o_lpn this_core 13893634 s'
        ≡ some (true, o_lpn_of 13893634 (originals (place this_core 13893634 - 27787265)), s''))
handler-find_example =
    handler-find this_core 13893634 27787265 5 originals headers (omega arith) (omega arith)
      some_expected (omega arith) (omega arith) (omega arith) (omega arith) (omega arith)
      none_earlier

-- A full cache of the map pages 8, 3, 5 and 1; the last is dirty.
abbrev full : Cache
full = record {
  lru = slot_of 2 8 ∷ slot_of 0 3 ∷ slot_of 3 5 ∷ slot_of 1 1 ∷ [];
  num_cached = 4;
  slots = λ s k. if s == 1 then 7 else k;
  dirty = λ s. s == 1;
  nand = λ p k. k;
  map_log = λ lpn. if lpn == 9 then some 4 else none;
}

full-Coherent : Coherent full
full-Coherent = record {
  unique = (refl, (refl, (refl, (refl, tt))));
  apart = λ p q s a b. ground arith;
  bound = λ p s a. ground arith;
  clean = λ p s k a d. ground arith;
  proper = refl;
  size = refl;
  room = omega arith;
}

get_map_page-Brings_example : Brings 6 full (get_map_page 6 0 full)
get_map_page-Brings_example = get_map_page-Brings 6 0 full full-Coherent (ground arith)

entries : (lpn : ℕ) → is_entry (entry full lpn) ≡ true
unfolding is_entry
entries lpn = ground arith

entry_77 : is_entry 77 ≡ true
unfolding is_entry
entry_77 = refl

full-Valid : Valid full
full-Valid = (full-Coherent, entries)

get_vpn-entry_example :
    (d : Cache) × (get_vpn 8195 0 full ≡ some (entry full 8195, d))
    × Valid d
    × ((l : ℕ) → entry d l ≡ entry full l)
get_vpn-entry_example = get_vpn-entry 8195 0 (omega arith) full full-Valid

set_vpn-entry_example :
    (d : Cache) × (set_vpn 49153 77 0 full ≡ some d)
    × Valid d
    × ((l : ℕ) → entry d l ≡ (if l == 49153 then 77 else entry full l))
set_vpn-entry_example = set_vpn-entry 49153 77 0 full (omega arith) entry_77 full-Valid
