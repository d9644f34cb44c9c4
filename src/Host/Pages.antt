-- ===== src/Host/Pages.antt =====
-- What the host sends: every page is in the log or is a command, and keeps to its bounds.
use shrd_simulator.Base.{◌+◌, ◌*◌, ◌≤◌, ◌<◌, ◌≡◌, List, [], ◌∷◌, ◌++◌, length}
use shrd_simulator.Host.State.{
  Host, Sent, header, remap, data_page, log_start_in_page, cmd_start_in_page, log_size_in_page,
  remap_cmd_start_in_page, twrite_entries, shrd_num_cores, max_twrite_entry, num_max_remap_entry,
}
use shrd_simulator.Host.Pack.{AllPlaced}

-- A page that goes to HIL_WriteLPN.
abbrev pub Proper : Sent → Type 0
Proper (header lpn hdr) =
    (cmd_start_in_page ≤ lpn)
    × (lpn < cmd_start_in_page + twrite_entries * shrd_num_cores)
    × (hdr.io_count ≡ length hdr.o_addr)
    × (hdr.io_count ≤ max_twrite_entry)
    × (log_start_in_page ≤ hdr.t_addr_start)
    × (hdr.t_addr_start + hdr.io_count ≤ cmd_start_in_page)
    × AllPlaced hdr.t_addr_start hdr.o_addr
Proper (remap lpn d) =
    (remap_cmd_start_in_page ≤ lpn)
    × (lpn < remap_cmd_start_in_page + twrite_entries * shrd_num_cores)
    × (length d.pairs ≤ num_max_remap_entry)
Proper (data_page lpn byte) = (log_start_in_page ≤ lpn) × (lpn < cmd_start_in_page)

abbrev pub AllProper : List Sent → Type 0
AllProper [] = Unit {0}
AllProper (x ∷ xs) = Proper x × AllProper xs

pub AllProper-append : (xs ys : List Sent) → AllProper xs → AllProper ys → AllProper (xs ++ ys)
AllProper-append [] ys h k = k
AllProper-append (x ∷ xs) ys h k = (h.0, AllProper-append xs ys h.1 k)

-- The indices of the log and of the commands stay in bounds, and so do all pages sent.
pub record HostInv (h : Host) : Type 0 where
  pub start : h.rw_log_start_idx ≤ log_size_in_page
  pub new : h.rw_log_new_idx ≤ log_size_in_page
  pub headers : h.header_entry_num < twrite_entries
  pub remaps : h.remap_entry_num < twrite_entries
  pub proper : AllProper h.sent
