-- ===== src/Host/Tests.antt =====
-- SHRD_host.cpp on concrete inputs.
use shrd_simulator.Base.{◌≤◌, ℕ, ◌+◌, ◌*◌, ◌%◌, ◌≡◌, ◌↔◌, refl, true, some, none, [], ◌∷◌, arith}
use shrd_simulator.Config.{invalid_lpn}
use shrd_simulator.Host.State.{Host, Packing, log_start_in_page, log_size_in_page}
use shrd_simulator.Host.{
  window_size, pack, find, store, pattern, word, verify_word, do_twrite, host_init, workload,
}
use shrd_simulator.Host.Pack.{Packed, pack-Packed}
use shrd_simulator.Host.Redirect.{latest, store-find}
use shrd_simulator.Host.Pattern.{verify_word-pattern}
use shrd_simulator.Host.Pages.{HostInv}
use shrd_simulator.Host.Twrite.{do_twrite-HostInv}
use shrd_simulator.Host.Gather.{window_size-le}
use shrd_simulator.Host.Workload.{host_init-HostInv, workload-HostInv}

-- Numbers as `rand()` might give them.
abbrev dice : ℕ → ℕ
dice k = 7 * k + 3

abbrev dices : ℕ → ℕ → ℕ
dices n k = 11 * n + 7 * k + 3

abbrev empty : Packing
empty = record { log_addr = 6; req_pages = 0; padding = 0; io_count = 0; o_addr = [] }

-- The pages 170 and 744 (each a product of two draws) and their padding.
packed :
    pack dice 128 3 6 0 empty
    ≡ some (record {
      log_addr = 9;
      req_pages = 3;
      padding = 1;
      io_count = 3;
      o_addr = 170 ∷ invalid_lpn ∷ 744 ∷ [];
    })
unfolding pack
packed = refl

empty-Packed : Packed 6 128 3 empty
empty-Packed = record {
  pages = refl;
  count = refl;
  place = refl;
  in_max = omega arith;
  in_num = omega arith;
  placed = tt;
}

pack-Packed_example : (q : Packing) × (pack dice 128 3 6 0 empty ≡ some q) × Packed 6 128 3 q
pack-Packed_example = pack-Packed dice 6 128 3 (omega arith) 6 0 empty empty-Packed (omega arith)

store-find_example :
    find 20 (store (log_start_in_page + 4) (20 ∷ invalid_lpn ∷ 20 ∷ []) host_init).redirection
    ≡ latest (log_start_in_page + 4) 20 (20 ∷ invalid_lpn ∷ 20 ∷ []) (find 20 host_init.redirection)
store-find_example =
    store-find (log_start_in_page + 4) 20 (20 ∷ invalid_lpn ∷ 20 ∷ []) host_init (ground arith)

latest_place : latest (log_start_in_page + 4) 20 (20 ∷ invalid_lpn ∷ 20 ∷ []) none ≡ some 6
unfolding latest
latest_place = refl

verify_word-pattern_example : (verify_word 13 (word (pattern 23)) ≡ true) ↔ (13 % 10 ≡ 23 % 10)
verify_word-pattern_example = verify_word-pattern 13 23 (ground arith)

do_twrite-HostInv_example : (h' : Host) × (do_twrite dice 128 host_init ≡ some h') × HostInv h'
do_twrite-HostInv_example =
    do_twrite-HostInv dice 128 host_init host_init-HostInv (unfold host_init in omega arith)

-- The log is almost full.
abbrev full_log : Host
full_log = record {
  rw_log_start_idx = 500;
  rw_log_new_idx = 32700;
  header_entry_num = 0;
  remap_entry_num = 0;
  write_amount = 0;
  map_entries = λ i. record { o_addr = 0; t_addr = 0; flags = 0 };
  redirection = [];
  sent = [];
}

-- Its used part goes round the end.
abbrev wrapped_log : Host
wrapped_log = record full_log { rw_log_start_idx = 32700; rw_log_new_idx = 500 }

wrapped_log-HostInv : HostInv wrapped_log
wrapped_log-HostInv = record {
  start = omega arith;
  new = omega arith;
  headers = omega arith;
  remaps = omega arith;
  proper = tt;
}

window_size-le_example : wrapped_log.rw_log_start_idx + window_size wrapped_log ≤ log_size_in_page
window_size-le_example = window_size-le wrapped_log wrapped_log-HostInv

workload-HostInv_example : (h : Host) × (workload dices 1000 host_init ≡ some h) × HostInv h
workload-HostInv_example = workload-HostInv dices 1000
