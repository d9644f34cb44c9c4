-- ===== src/Host.antt =====
-- SHRD_host.cpp: the host, which packs random writes into its log, remaps them from there to their
-- places, and checks what it reads back.
--
-- `redirection_map` is the list of its pairs in the order of their keys; a pointer to a map entry
-- is the index of the entry. The pages that go to HIL_WriteLPN are the list `sent`. `rand()` is a
-- parameter, the numbers that it gives in a call of `do_twrite`. `HIL_WriteLPN` and `RSP_ReadPage`
-- stay outside: the first is the list `sent`, the second is a parameter of the checks.
pub mod State
pub mod Pack
pub mod Redirect
pub mod Pages
pub mod Twrite
pub mod Gather
pub mod Workload
pub mod Pattern
pub mod Tests
use shrd_simulator.Base.{
  ℕ, zero, suc, ◌+◌, ◌-◌, ◌*◌, ◌/◌, ◌%◌, Bool, true, false, Option, none, some, List, [], ◌∷◌, ◌++◌,
  ◌==◌, leb, ltb, if◌then◌else◌, not, ◌&&◌, ◌||◌, length,
}
use shrd_simulator.Config.{u32, invalid_lpn}
use shrd_simulator.Host.State.{
  Entry, Host, Packing, TwriteHeader, RemapData, Sent, header, remap, data_page, new_entry,
  lpn_range, max_twrite_entry, log_size_in_page, log_start_in_page, cmd_start_in_page,
  remap_cmd_start_in_page, twrite_entries, num_max_remap_entry, shrd_num_cores,
  min_logging_io_in_page, max_twrite_io_in_sector, max_twrite_io_in_page, set_entry, remap_size,
  remap_threshold, valid_map, remapping_map, invalid_map,
}

-- The packing loop of do_twrite.
pub pad : Packing → Packing
pad p = record p {
  req_pages = (p.req_pages + 1) % u32;
  padding = (p.padding + 1) % u32;
  log_addr = (p.log_addr + 1) % u32;
  o_addr = p.o_addr ++ invalid_lpn ∷ [];
  io_count = (p.io_count + 1) % u32;
}

pub put : ℕ → Packing → Packing
put lpn p = record p {
  o_addr = p.o_addr ++ lpn ∷ [];
  io_count = (p.io_count + 1) % u32;
  log_addr = (p.log_addr + 1) % u32;
}

-- `(rand() * rand()) % LPN_RANGE` in the k-th round; `num_packing` took the first number.
pub draw : (ℕ → ℕ) → ℕ → ℕ
draw rand k = rand (2 * k + 1) * rand (2 * k + 2) % lpn_range

-- The rounds of the loop: `none` is a lack of fuel.
pub pack : (ℕ → ℕ) → (max_packed_rw num_packing : ℕ) → (fuel k : ℕ) → Packing → Option Packing
unfolding pad put draw
pack rand max num zero k p = none
pack rand max num (suc n) k p =
    let lpn = draw rand k in
    let taken = record p { req_pages = (p.req_pages + 1) % u32 } in
    let stop = record p { req_pages = taken.req_pages - 1 } in
    let aligned = p.log_addr % 2 == lpn % 2 in
    let rest = pack rand max num n (k + 1) (put lpn (if aligned then taken else pad taken)) in
    if ltb max taken.req_pages || ltb num taken.req_pages
    then some stop
    else if not aligned && ltb max (taken.req_pages + 1)
    then some stop
    else rest

-- `memset(buff, ..., 4096)` for a page of the log.
pub pattern : ℕ → ℕ
pattern o_addr =
    if o_addr == invalid_lpn then 0xaa else if o_addr % 10 == 0 then 0xff else 0x11 * (o_addr % 10)

-- std::map
pub find : ℕ → List (ℕ × ℕ) → Option ℕ
find o [] = none
find o ((o', i) ∷ r) = if o == o' then some i else find o r

pub erase : ℕ → List (ℕ × ℕ) → List (ℕ × ℕ)
erase o [] = []
erase o ((o', i) ∷ r) = if o == o' then erase o r else (o', i) ∷ erase o r

pub insert : ℕ → ℕ → List (ℕ × ℕ) → List (ℕ × ℕ)
insert o i [] = (o, i) ∷ []
insert o i ((o', j) ∷ r) =
    if o == o'
    then (o', j) ∷ r
    else if ltb o o'
    then (o, i) ∷ (o', j) ∷ r
    else (o', j) ∷ insert o i r

-- An older copy of the page in the log: its entry is cleared.
pub drop_entry : Option ℕ → ℕ → Host → Host
unfolding erase
drop_entry none o h = h
drop_entry (some i) o h = record h {
  redirection = erase o h.redirection;
  map_entries = set_entry h.map_entries i new_entry;
}

pub drop_old : ℕ → Host → Host
unfolding find drop_entry
drop_old o h = drop_entry (find o h.redirection) o h

-- The map entry of a page of the log, which replaces the older one of that page. Where the entry is
-- still valid, the source prints an error and goes on.
pub enter : (t_addr o_addr : ℕ) → Host → Host
unfolding drop_old insert
enter t_addr o h =
    let offset = t_addr - log_start_in_page in
    let dropped = drop_old o (record h {
      map_entries =
          set_entry h.map_entries offset
            (record { o_addr = o; t_addr = offset + log_start_in_page; flags = valid_map });
    }) in
    record dropped { redirection = insert o offset dropped.redirection }

-- A page of the twrite data.
pub store_page : (t_addr o_addr : ℕ) → Host → Host
store_page t_addr o h =
    let written = record h { sent = h.sent ++ data_page t_addr (pattern o) ∷ [] } in
    if o == invalid_lpn then written else enter t_addr o written

pub store : (t_addr : ℕ) → List ℕ → Host → Host
unfolding store_page
store t_addr [] h = h
store t_addr (o ∷ os) h = store (suc t_addr) os (store_page t_addr o h)

-- A command in two pages, one for each core.
pub send_cmd : (lpn : ℕ) → (ℕ → Sent) → Host → Host
send_cmd lpn content h = record h { sent = h.sent ++ content lpn ∷ content (lpn + 1) ∷ [] }

pub next_num : ℕ → ℕ
next_num n = if n + 1 == twrite_entries then 0 else n + 1

abbrev pub num_packing_of : (ℕ → ℕ) → ℕ
num_packing_of rand = rand 0 % max_twrite_entry

-- What do_twrite does with the packed pages.
pub send_twrite : ℕ → Packing → Host → Host
unfolding store send_cmd next_num
send_twrite t_addr_start p h =
    let hdr : TwriteHeader = record {
      t_addr_start = t_addr_start;
      io_count = p.io_count;
      o_addr = p.o_addr;
    } in
    let h₁ =
      record (send_cmd (h.header_entry_num * shrd_num_cores + cmd_start_in_page) (λ a. header a hdr)
        h) { header_entry_num = next_num h.header_entry_num } in
    let h₂ = store t_addr_start p.o_addr h₁ in
    record h₂ { rw_log_new_idx = p.log_addr; write_amount = (h₂.write_amount + p.req_pages) % u32 }

pub do_twrite : (ℕ → ℕ) → ℕ → Host → Option Host
do_twrite rand max h =
    elim (pack rand max (num_packing_of rand) (max_twrite_entry + 2) 0 (record {
      log_addr = h.rw_log_new_idx;
      req_pages = 0;
      padding = 0;
      io_count = 0;
      o_addr = [];
    })) [ none ↦ none | some p ↦ some (send_twrite (h.rw_log_new_idx + log_start_in_page) p h) ]

-- `size` of do_remap: how much of the log is in use.
pub log_used : Host → ℕ
log_used h =
    if leb h.rw_log_start_idx h.rw_log_new_idx
    then h.rw_log_new_idx - h.rw_log_start_idx
    else log_size_in_page - h.rw_log_start_idx + h.rw_log_new_idx

pub wrap : ℕ → ℕ
wrap i = if leb log_size_in_page i then i - log_size_in_page else i

-- The first loop of __do_remap: the valid entries of the window.
pub count_valid : (ℕ → Entry) → (start size : ℕ) → ℕ
count_valid entries start zero = 0
count_valid entries start (suc n) =
    count_valid entries start n + (if (entries (n + start)).flags == valid_map then 1 else 0)

-- The remap command: it goes out, and its pages leave the redirection map.
pub forget : List (ℕ × ℕ) → Host → Host
unfolding erase
forget [] h = h
forget ((o, t) ∷ rest) h =
    let i = t - log_start_in_page in
    forget rest (record h {
      redirection = erase o h.redirection;
      map_entries = set_entry h.map_entries i (record (h.map_entries i) { flags = invalid_map });
    })

pub send_remap : List (ℕ × ℕ) → Host → Host
unfolding send_cmd next_num forget
send_remap batch h =
    forget batch
      (record (send_cmd (h.remap_entry_num * shrd_num_cores + remap_cmd_start_in_page)
        (λ a. remap a (record { pairs = batch })) h) {
          remap_entry_num = next_num h.remap_entry_num;
        })

-- The variables of the loop of __do_remap: how many entries it has met (`idx`), and those that the
-- next command takes.
pub record Gathering : Type 0 where
  pub idx : ℕ
  pub batch : List (ℕ × ℕ)
  pub host : Host

-- A full command goes out before the entry joins the next one.
pub flush_full : Gathering → Gathering
unfolding send_remap
flush_full g =
    if length g.batch == num_max_remap_entry
    then record g { batch = []; host = send_remap g.batch g.host }
    else g

-- An entry of the window joins the command.
pub gather : (start end o i : ℕ) → Gathering → Gathering
unfolding flush_full
gather start end o i g =
    let e = g.host.map_entries i in
    let f = flush_full g in
    if leb (start + log_start_in_page) e.t_addr && leb e.t_addr (end + log_start_in_page)
    then record {
      idx = f.idx + 1;
      batch = f.batch ++ (e.o_addr, e.t_addr) ∷ [];
      host = record f.host {
        map_entries =
            set_entry f.host.map_entries i
              (record (f.host.map_entries i) { flags = remapping_map });
      };
    }
    else g

-- The loop over the redirection map, which ends early when all `cnt` entries are sent.
pub walk : (start end cnt : ℕ) → List (ℕ × ℕ) → Gathering → Gathering
unfolding gather send_remap
walk start end cnt [] g = g
walk start end cnt ((o, i) ∷ r) g =
    let g' = gather start end o i g in
    let skipped = walk start end cnt r g in
    let rest = walk start end cnt r g' in
    if not ((g.host.map_entries i).flags == valid_map)
    then skipped
    else if g'.idx == cnt
    then record g' { batch = []; host = send_remap g'.batch g'.host }
    else rest

-- __do_remap
pub remap_window : ℕ → Host → Host
unfolding count_valid walk wrap
remap_window size h =
    let start = h.rw_log_start_idx in
    let cnt = count_valid h.map_entries start size in
    let end = start + size - 1 in
    let g = walk start end cnt h.redirection (record { idx = 0; batch = []; host = h }) in
    if cnt == 0
    then record h { rw_log_start_idx = wrap (start + size + 1) }
    else record g.host { rw_log_start_idx = wrap (end + 1) }

-- The size of the window that do_remap passes on.
pub window_size : Host → ℕ
unfolding log_used
window_size h =
    let size =
      if ltb h.rw_log_new_idx h.rw_log_start_idx
      then log_size_in_page - h.rw_log_start_idx
      else log_used h in
    if ltb remap_size size then remap_size else size

-- do_remap: whether nothing is to do, and the state.
pub do_remap : Host → Bool × Host
unfolding log_used window_size remap_window
do_remap h =
    if ltb remap_threshold (log_used h) then (false, remap_window (window_size h) h) else (true, h)

-- What HOST_gen_random_workload does: a twrite with a bound on its pages, or a remap.
pub data Plan : Type 0 where
  twrite : (max_packed_rw new_idx : ℕ) → Plan
  needs_remap : Plan

pub plan : Host → Plan
plan h =
    let left = log_size_in_page - h.rw_log_new_idx in
    let gap = h.rw_log_start_idx - h.rw_log_new_idx in
    if leb h.rw_log_start_idx h.rw_log_new_idx
    then (if leb min_logging_io_in_page left
        then twrite (if ltb max_twrite_io_in_sector left then max_twrite_io_in_sector else left)
            h.rw_log_new_idx
        else if leb max_twrite_io_in_page h.rw_log_start_idx
        then twrite max_twrite_io_in_page 0
        else needs_remap)
    else if leb min_logging_io_in_page gap
    then twrite (if ltb max_twrite_io_in_page gap then max_twrite_io_in_page else gap)
        h.rw_log_new_idx
    else needs_remap

-- HOST_gen_random_workload
pub gen_random_workload : (ℕ → ℕ) → Host → Option Host
gen_random_workload rand h = elim (plan h) [
  | twrite max new_idx ↦ do_twrite rand max (record h { rw_log_new_idx = new_idx })
  | needs_remap ↦ some (do_remap h).1
]

-- SHRD_host::SHRD_host
pub host_init : Host
host_init = record {
  rw_log_start_idx = 0;
  rw_log_new_idx = 0;
  header_entry_num = 0;
  remap_entry_num = 0;
  write_amount = 0;
  map_entries = λ i. new_entry;
  redirection = [];
  sent = [];
}

-- The calls of the loop of run_shrd_workload; `rand` has the numbers of each call.
pub workload : (ℕ → ℕ → ℕ) → ℕ → Host → Option Host
workload rand zero h = some h
workload rand (suc n) h = elim (workload rand n h) [
  | none ↦ none
  | some g ↦ gen_random_workload (rand n) g
]

-- A word of a page that repeats a byte.
abbrev pub word : ℕ → ℕ
word b = b * 0x01010101

-- HOST_verify_lpn on the first word that RSP_ReadPage gives: false is HOST_ASSERT.
pub verify_word : (lpn buff : ℕ) → Bool
verify_word lpn buff =
    if buff == 0 || buff == 0xcdcdcdcd
    then true
    else if lpn % 10 == 0
    then buff == 0xffffffff
    else buff == 0x11111111 * (lpn % 10)

-- RSP_ReadPage of a core, for a page of that core: the first word.
module _ (read_page : (core lpn : ℕ) → ℕ) where
  pub verify_lpn : ℕ → Bool
  unfolding verify_word
  verify_lpn lpn = verify_word lpn (read_page (lpn % 2) (lpn / 2))

  -- The loop of HOST_verify_random_workload over the pages below a bound.
  pub verify_below : ℕ → Bool
  unfolding verify_lpn
  verify_below zero = true
  verify_below (suc n) = verify_below n && verify_lpn n

  pub verify_random_workload : Bool
  unfolding verify_below
  verify_random_workload = verify_below lpn_range
