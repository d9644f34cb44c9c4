-- ===== src/Host/State.antt =====
-- The data of SHRD_host.h and SHRD_host.cpp, and the constants of SHRD_host.h.
use shrd_simulator.Base.{ℕ, ◌+◌, ◌-◌, ◌*◌, ◌/◌, List, ◌==◌, if◌then◌else◌}

abbrev pub shrd_num_cores : ℕ
shrd_num_cores = 2

abbrev pub lpn_range : ℕ
lpn_range = 2 * 1024 * 256

abbrev pub twrite_entries : ℕ
twrite_entries = 32

abbrev pub log_size_in_page : ℕ
log_size_in_page = 128 * 256

abbrev pub cmd_start_in_page : ℕ
cmd_start_in_page = 110 * 1024 * 256

abbrev pub remap_cmd_start_in_page : ℕ
remap_cmd_start_in_page = cmd_start_in_page + twrite_entries * shrd_num_cores

abbrev pub log_start_in_page : ℕ
log_start_in_page = cmd_start_in_page - log_size_in_page

abbrev pub max_twrite_entry : ℕ
max_twrite_entry = 128

abbrev pub num_max_remap_entry : ℕ
num_max_remap_entry = 511

abbrev pub min_logging_io_in_page : ℕ
min_logging_io_in_page = 128

abbrev pub max_twrite_io_in_sector : ℕ
max_twrite_io_in_sector = 1024

abbrev pub max_twrite_io_in_page : ℕ
max_twrite_io_in_page = max_twrite_io_in_sector / 8

abbrev pub remap_threshold : ℕ
remap_threshold = 20480

abbrev pub remap_size : ℕ
remap_size = 16384

-- SHRD_MAP_FLAG
abbrev pub invalid_map : ℕ
invalid_map = 0

abbrev pub valid_map : ℕ
valid_map = 1

abbrev pub remapping_map : ℕ
remapping_map = 2

-- SHRD_MAP
pub record Entry : Type 0 where
  pub o_addr : ℕ
  pub t_addr : ℕ
  pub flags : ℕ

abbrev pub new_entry : Entry
new_entry = record { o_addr = 0; t_addr = 0; flags = 0 }

-- SHRD_TWRITE_HEADER, of which the first `io_count` places are in use.
pub record TwriteHeader : Type 0 where
  pub t_addr_start : ℕ
  pub io_count : ℕ
  pub o_addr : List ℕ

-- SHRD_REMAP_DATA: its pairs of `o_addr` and `t_addr`, `remap_count` of them.
pub record RemapData : Type 0 where
  pub pairs : List (ℕ × ℕ)

-- A page for HIL_WriteLPN: a command, or a page that repeats one byte.
pub data Sent : Type 0 where
  header : ℕ → TwriteHeader → Sent
  remap : ℕ → RemapData → Sent
  data_page : ℕ → ℕ → Sent

-- The variables of the packing loop.
pub record Packing : Type 0 where
  pub log_addr : ℕ
  pub req_pages : ℕ
  pub padding : ℕ
  pub io_count : ℕ
  pub o_addr : List ℕ

-- SHRD_host
pub record Host : Type 0 where
  pub rw_log_start_idx : ℕ
  pub rw_log_new_idx : ℕ
  pub header_entry_num : ℕ
  pub remap_entry_num : ℕ
  pub write_amount : ℕ
  pub map_entries : ℕ → Entry
  pub redirection : List (ℕ × ℕ)
  pub sent : List Sent

abbrev pub set_entry : (ℕ → Entry) → ℕ → Entry → ℕ → Entry
set_entry f i e j = if j == i then e else f j
