-- ===== src/Atl/Headers/Find.antt =====
-- The header of a twrite and the pages that follow it.
use shrd_simulator.Base.{
  ℕ, ◌+◌, ◌-◌, ◌/◌, ◌≤◌, ◌<◌, ◌≡◌, refl, true, false, none, some, List, [], ◌∷◌, ◌++◌, arith, ◌==◌,
  leb, ltb,
}
use shrd_simulator.Config.{u32, num_ftl_core, rw_log_start_in_page}
use shrd_simulator.Atl.Headers.{
  Headers, TwriteEntry, new_entry, remained_of, twrite_header_handler, covers, place, o_lpn_of,
  find_in, find_twrite_entry, find_twrite_o_lpn, complete_write, num_max_twrite_entry,
  find_twrite_entry-last,
}

find_in-found :
    (core t_lpn : ℕ) (es : List TwriteEntry) (e : TwriteEntry)
    → find_twrite_entry core t_lpn es ≡ some e
    → ltb (place core t_lpn) e.addr_start ≡ false
    → (e.remained == 0) ≡ false
    → find_in core t_lpn es
      ≡ some (
        true,
        o_lpn_of t_lpn (e.o_addr (place core t_lpn - e.addr_start)),
        complete_write core t_lpn es,
      )
unfolding find_in
find_in-found core t_lpn es e found behind expected = rw (found, behind, expected, find_in) refl

module _ (core t_lpn start count : ℕ) (o_addr : ℕ → ℕ) (s : Headers) (small : start + count < u32)
    (fits : count ≤ num_max_twrite_entry) (expected : (remained_of core start count == 0) ≡ false)
    (from : start ≤ place core t_lpn) (to : place core t_lpn < start + count)
    (log : rw_log_start_in_page ≤ start / num_ftl_core) (page : rw_log_start_in_page ≤ t_lpn)
    (free : 0 < s.free_twrites) (fresh : find_twrite_entry core t_lpn s.rw_twrites ≡ none) where
  abbrev added : TwriteEntry
  added = new_entry core start count o_addr s.rw_epoch

  abbrev handled : Headers
  handled = record s { free_twrites = s.free_twrites - 1; rw_twrites = s.rw_twrites ++ added ∷ [] }

  handler_runs : twrite_header_handler core start count o_addr s ≡ some handled
  unfolding twrite_header_handler
  handler_runs = rw (some_free, expected, in_log) refl
    where
      some_free : (s.free_twrites == 0) ≡ false
      some_free = ground arith

      in_log : leb rw_log_start_in_page (start / num_ftl_core) ≡ true
      in_log = ground arith

  covers-added : covers core t_lpn added ≡ true
  unfolding covers new_entry
  covers-added = ground arith

  found : find_twrite_entry core t_lpn (s.rw_twrites ++ added ∷ []) ≡ some added
  found = find_twrite_entry-last core t_lpn s.rw_twrites added fresh covers-added

  not_before : ltb (place core t_lpn) start ≡ false
  not_before = ground arith

  found_in :
      find_in core t_lpn (s.rw_twrites ++ added ∷ [])
      ≡ some (
        true,
        o_lpn_of t_lpn (o_addr (place core t_lpn - start)),
        complete_write core t_lpn (s.rw_twrites ++ added ∷ []),
      )
  unfolding find_in new_entry
  found_in = find_in-found core t_lpn (s.rw_twrites ++ added ∷ []) added found not_before expected

  finds :
      find_twrite_o_lpn core t_lpn handled
      ≡ some (
        true,
        o_lpn_of t_lpn (o_addr (place core t_lpn - start)),
        record handled { rw_twrites = complete_write core t_lpn (s.rw_twrites ++ added ∷ []) },
      )
  unfolding find_twrite_o_lpn
  finds = rw (in_log, found_in, find_twrite_o_lpn) refl
    where
      in_log : leb rw_log_start_in_page t_lpn ≡ true
      in_log = ground arith

  -- For any number of a core: when the header of a twrite in the random-write log of which the core
  -- expects a page is handled, with a free header left, a page of the log whose place lies in the twrite,
  -- and in no earlier one, finds its entry: find_twrite_oLPN gives the original page of the header at the
  -- offset of the place, divided over the cores, or what the header says for padding and for pages
  -- without an original.
  pub handler-find :
      (s' s'' : Headers) × (twrite_header_handler core start count o_addr s ≡ some s')
      × (find_twrite_o_lpn core t_lpn s'
          ≡ some (true, o_lpn_of t_lpn (o_addr (place core t_lpn - start)), s''))
  handler-find = (
    handled,
    record handled { rw_twrites = complete_write core t_lpn (s.rw_twrites ++ added ∷ []) },
    handler_runs,
    finds,
  )
