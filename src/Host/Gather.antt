-- ===== src/Host/Gather.antt =====
-- __do_remap and do_remap: their commands hold a bounded number of pages, and the log stays a log.
use shrd_simulator.Base.{
  ℕ, ◌+◌, ◌-◌, ◌*◌, ◌≤◌, ◌<◌, inl, inr, List, [], ◌∷◌, ◌++◌, arith, length, length-append, leb, ltb,
  ◌==◌, Bool-cases, not, ◌&&◌,
}
use shrd_simulator.Host.State.{
  Host, remap, valid_map, log_start_in_page, log_size_in_page, remap_cmd_start_in_page,
  shrd_num_cores, num_max_remap_entry, set_entry, invalid_map, remap_threshold, RemapData,
}
use shrd_simulator.Host.{
  Gathering, send_remap, forget, send_cmd, next_num, flush_full, gather, walk, remap_window,
  window_size, log_used, do_remap, wrap, count_valid, erase,
}
use shrd_simulator.Host.Pages.{AllProper-append, HostInv}
use shrd_simulator.Host.Twrite.{next_num-lt}

-- What `forget` leaves alone.
forget-HostInv : (batch : List (ℕ × ℕ)) (h : Host) → HostInv h → HostInv (forget batch h)
unfolding forget
forget-HostInv [] h i = i
forget-HostInv ((o, t) ∷ rest) h i =
    forget-HostInv rest
      (record h {
        redirection = erase o h.redirection;
        map_entries =
            set_entry h.map_entries (t - log_start_in_page)
              (record (h.map_entries (t - log_start_in_page)) { flags = invalid_map });
      })
      (record {
        start = i.start;
        new = i.new;
        headers = i.headers;
        remaps = i.remaps;
        proper = i.proper;
      })

send_remap-HostInv :
    (batch : List (ℕ × ℕ)) (h : Host)
    → HostInv h
    → length batch ≤ num_max_remap_entry
    → HostInv (send_remap batch h)
unfolding send_remap send_cmd
send_remap-HostInv batch h i small =
    let lpn = h.remap_entry_num * shrd_num_cores + remap_cmd_start_in_page in
    let d : RemapData = record { pairs = batch } in
    forget-HostInv batch
      (record h {
        sent = h.sent ++ remap lpn d ∷ remap (lpn + 1) d ∷ [];
        remap_entry_num = next_num h.remap_entry_num;
      })
      (record {
        start = i.start;
        new = i.new;
        headers = i.headers;
        remaps = next_num-lt h.remap_entry_num i.remaps;
        proper = AllProper-append h.sent (remap lpn d ∷ remap (lpn + 1) d ∷ []) i.proper (
          (omega arith, omega (arith, i.remaps), small),
          ((omega arith, omega (arith, i.remaps), small), tt),
        );
      })

record GatherInv (g : Gathering) : Type 0 where
  host_inv : HostInv g.host
  bounded : length g.batch ≤ num_max_remap_entry

flush_full-GatherInv :
    (g : Gathering)
    → GatherInv g
    → GatherInv (flush_full g) × (length (flush_full g).batch < num_max_remap_entry)
unfolding flush_full
flush_full-GatherInv g i = elim (Bool-cases (length g.batch == num_max_remap_entry)) [
  | inl full ↦ rw full (
    record {
      host_inv = send_remap-HostInv g.batch g.host i.host_inv i.bounded;
      bounded = omega arith;
    },
    omega arith,
  )
  | inr room ↦ rw room (i, ground (arith, i.bounded))
]

gather-GatherInv :
    (start end o e : ℕ) (g : Gathering) → GatherInv g → GatherInv (gather start end o e g)
unfolding gather
gather-GatherInv start end o e g i =
    let t = (g.host.map_entries e).t_addr in
    elim (Bool-cases (leb (start + log_start_in_page) t && leb t (end + log_start_in_page))) [
      | inl inside ↦
          let (j, room) = flush_full-GatherInv g i in
          let f = flush_full g in
          let added = length-append f.batch (((g.host.map_entries e).o_addr, t) ∷ []) in
          let hi = j.host_inv in
          rw inside (record {
            host_inv = record {
              start = hi.start;
              new = hi.new;
              headers = hi.headers;
              remaps = hi.remaps;
              proper = hi.proper;
            };
            bounded = omega (arith, added);
          })
      | inr outside ↦ rw outside i
    ]

walk-GatherInv :
    (start end cnt : ℕ) (r : List (ℕ × ℕ)) (g : Gathering)
    → GatherInv g
    → GatherInv (walk start end cnt r g)
unfolding walk
walk-GatherInv start end cnt [] g i = i
walk-GatherInv start end cnt ((o, e) ∷ r) g i =
    let g' = gather start end o e g in
    let j = gather-GatherInv start end o e g i in
    elim (Bool-cases (not ((g.host.map_entries e).flags == valid_map))) [
      | inl skipped ↦ rw skipped (walk-GatherInv start end cnt r g i)
      | inr valid ↦ elim (Bool-cases (g'.idx == cnt)) [
        | inl all ↦
            rw (valid, all)
              (record {
                host_inv = send_remap-HostInv g'.batch g'.host j.host_inv j.bounded;
                bounded = omega arith;
              })
        | inr more ↦ rw (valid, more) (walk-GatherInv start end cnt r g' j)
      ]
    ]

wrap-le : (i : ℕ) → i ≤ log_size_in_page + log_size_in_page → wrap i ≤ log_size_in_page
unfolding wrap
wrap-le i h = ground arith

-- From a state whose indices and pages are in bounds, the window of do_remap ends at the end of the log
-- at the latest, also where the used part of the log goes round it.
pub window_size-le : (h : Host) → HostInv h → h.rw_log_start_idx + window_size h ≤ log_size_in_page
unfolding window_size log_used
window_size-le h i = ground (arith, i.start, i.new)

remap_window-HostInv :
    (size : ℕ) (h : Host)
    → HostInv h
    → h.rw_log_start_idx + size ≤ log_size_in_page
    → HostInv (remap_window size h)
unfolding remap_window
remap_window-HostInv size h i room =
    let start = h.rw_log_start_idx in
    let cnt = count_valid h.map_entries start size in
    let g : Gathering = record { idx = 0; batch = []; host = h } in
    elim (Bool-cases (cnt == 0)) [
      | inl none ↦ rw none (record {
        start = wrap-le (start + size + 1) (omega arith);
        new = i.new;
        headers = i.headers;
        remaps = i.remaps;
        proper = i.proper;
      })
      | inr some ↦
          let w =
            walk-GatherInv start (start + size - 1) cnt h.redirection g
              (record { host_inv = i; bounded = omega arith }) in
          let hi = w.host_inv in
          rw some (record {
            start = wrap-le (start + size - 1 + 1) (omega (arith, i.start));
            new = hi.new;
            headers = hi.headers;
            remaps = hi.remaps;
            proper = hi.proper;
          })
    ]

-- From a state whose indices and pages are in bounds, do_remap keeps them in bounds.
pub do_remap-HostInv : (h : Host) → HostInv h → HostInv (do_remap h).1
unfolding do_remap
do_remap-HostInv h i = elim (Bool-cases (ltb remap_threshold (log_used h))) [
  | inl full ↦ rw full (remap_window-HostInv (window_size h) h i (window_size-le h i))
  | inr room ↦ rw room i
]
