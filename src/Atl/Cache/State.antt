-- ===== src/Atl/Cache/State.antt =====
-- The state of the map cache, and the constants of ATLWrapper.h that it uses.
use shrd_simulator.Base.{ℕ, ◌+◌, ◌-◌, ◌*◌, ◌/◌, Bool, Option, List, ◌==◌, if◌then◌else◌}
use shrd_simulator.Config.{
  num_lblk, pages_per_blk, lpage_per_ppage, planes_per_bank, num_channels, banks_per_channel,
  blks_per_plane,
}

abbrev pub vc_max : ℕ
vc_max = 0xffffffff

abbrev pub vc_max_page : ℕ
vc_max_page = 0xffff

-- CMT_size / MAP_ENTRY_SIZE
abbrev pub num_cached_map : ℕ
num_cached_map = 128 * 1024 / 32768

abbrev pub num_pages_per_map : ℕ
num_pages_per_map = 32768 / 4

abbrev pub num_map_page : ℕ
num_map_page =
    (num_lblk * pages_per_blk * lpage_per_ppage + num_pages_per_map - 1)
    / num_pages_per_map
    * lpage_per_ppage

abbrev pub write_buffer_bit : ℕ
write_buffer_bit = 0x80000000

-- NUM_PBLK * PAGES_PER_BLK * LPAGE_PER_PPAGE
abbrev pub num_pvpn : ℕ
num_pvpn =
    num_channels * banks_per_channel * planes_per_bank * blks_per_plane * pages_per_blk
    * lpage_per_ppage

-- Prof_IntraGC, the first flag of the garbage collection.
abbrev pub prof_intra_gc : ℕ
prof_intra_gc = 5

-- cache_map
pub record CacheMap : Type 0 where
  pub cache_slot : ℕ
  pub map_page : ℕ

-- CACHE_LRU_HEAD, num_cached, CACHE_ADDR, CACHE_MAP_DIRTY_TABLE, the map pages in NAND, and the map
-- log.
pub record Cache : Type 0 where
  pub lru : List CacheMap
  pub num_cached : ℕ
  pub slots : ℕ → ℕ → ℕ
  pub dirty : ℕ → Bool
  pub nand : ℕ → ℕ → ℕ
  pub map_log : ℕ → Option ℕ

abbrev pub set_at : {A : Type 0} → (ℕ → A) → ℕ → A → ℕ → A
set_at f i v j = if j == i then v else f j
