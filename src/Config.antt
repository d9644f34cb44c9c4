-- ===== src/Config.antt =====
-- The constants of RSP_Header.h, ATLWrapper.h, HILWrapper.h and SHRD_host.h, with the values of the
-- build that main() runs (NUM_LBLK as RSP_Open sets it). RSP_UINT32 is `unsigned long` of a Windows
-- build: 32 bits.
use shrd_simulator.Base.{ℕ, ◌+◌, ◌-◌, ◌*◌, ◌/◌, ◌^◌}

abbrev pub u32 : ℕ
u32 = 2 ^ 32

-- RSP_Header.h
abbrev pub invalid_lpn : ℕ
invalid_lpn = 0x07ff_ffff

abbrev pub num_channels : ℕ
num_channels = 4

abbrev pub banks_per_channel : ℕ
banks_per_channel = 2

abbrev pub planes_per_bank : ℕ
planes_per_bank = 4

abbrev pub pages_per_blk : ℕ
pages_per_blk = 128

abbrev pub blks_per_plane : ℕ
blks_per_plane = 1987

abbrev pub lpage_per_ppage : ℕ
lpage_per_ppage = 2

-- ATLWrapper.h
abbrev pub num_ftl_core : ℕ
num_ftl_core = 2

abbrev pub pages_per_bank : ℕ
pages_per_bank = pages_per_blk * blks_per_plane * planes_per_bank

abbrev pub num_lblk : ℕ
num_lblk = 110 / num_ftl_core * 1024

abbrev pub rw_log_start_in_page : ℕ
rw_log_start_in_page = num_lblk * pages_per_blk * lpage_per_ppage - 524288

abbrev pub jn_log_start_in_page : ℕ
jn_log_start_in_page = rw_log_start_in_page - 64 * 1024 * 1024 / 2 ^ 12

abbrev pub twrite_cmd_in_page : ℕ
twrite_cmd_in_page = num_lblk * pages_per_blk * lpage_per_ppage

abbrev pub remap_cmd_in_page : ℕ
remap_cmd_in_page = twrite_cmd_in_page + 128

abbrev pub confirm_read_cmd_in_page : ℕ
confirm_read_cmd_in_page = remap_cmd_in_page + 128

-- HILWrapper.h
abbrev pub num_buff : ℕ
num_buff = 20 * (1024 * 1024) / (8 * 1024)

abbrev pub num_perbank_queue : ℕ
num_perbank_queue = banks_per_channel * num_channels

abbrev pub buff_threshold : ℕ
buff_threshold = 32

abbrev pub special_lpn_start : ℕ
special_lpn_start = 14417920
