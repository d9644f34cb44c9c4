-- ===== src/Atl/WritePage/Dispatch/Tests.antt =====
-- RSP_WritePage of ATLWrapper.cpp on concrete inputs.
use shrd_simulator.Base.{ℕ, ◌≡◌, true, false, none, [], ◌∷◌, arith, ◌+◌}
use shrd_simulator.Config.{invalid_lpn, rw_log_start_in_page}
use shrd_simulator.Atl.Cache.State.{vc_max}
use shrd_simulator.Atl.Write.{BankState}
use shrd_simulator.Atl.Buffer.{Memory}
use shrd_simulator.Atl.Headers.{TwriteEntry, find_twrite_entry, covers}
use shrd_simulator.Atl.Ftl.{Ftl}
use shrd_simulator.Atl.Remap.{Remaps}
use shrd_simulator.Atl.WritePage.Old.{ModifyRead}
use shrd_simulator.Atl.WritePage.Dispatch.{PageRequest, rsp_write_page, write_half}
use shrd_simulator.Atl.WritePage.Dispatch.Halves.{Handled}
use shrd_simulator.Atl.WritePage.Dispatch.Whole.{
  IsStopped, rsp_write_page-Handled, write_half-IsStopped,
}

abbrev bank : BankState
bank = record {
  free_list = 1 ∷ 2 ∷ 3 ∷ 4 ∷ 5 ∷ 6 ∷ 7 ∷ 8 ∷ 9 ∷ [];
  data_list = [];
  rw_log_list = [];
  jn_log_list = [];
  vcount = λ b. vc_max;
  cur_vpn = λ t. 0;
  write_start = λ t. true;
  meta_blk = 0;
  cur_meta_vpn = 0;
  meta_start = false;
}

abbrev ftl : Ftl
ftl = record {
  map_of = λ l. vc_max;
  memory = λ a i. 0;
  core = record { banks = λ n. bank; dirty_bbp = λ i. false; cur_write_bank = 0 };
  pages = λ n. record {
    remained = λ b. 0;
    inbuff = 0;
    gc = record { index = 0; lpn = λ i. 0; cur_vt_vpn = vc_max; num_valid = 0 };
  };
  bufs = λ k. record {
    index = 0;
    bits = λ i. false;
    addr = λ q. none;
    sectors = λ q. 0;
    req_lpn = λ i. invalid_lpn;
    remap_lpn = λ i. 0;
  };
  valid = λ x. false;
}

-- One twrite of two pages of the log is in use, one page for each core.
abbrev announced : TwriteEntry
announced = record {
  addr_start = rw_log_start_in_page + rw_log_start_in_page;
  io_count = 2;
  o_addr = λ i. 60 + i;
  write_complete = λ i. false;
  epoch = 0;
  remained = 1;
}

abbrev state : Remaps
state = record {
  headers = record {
    free_twrites = 127;
    rw_twrites = announced ∷ [];
    jn_twrites = [];
    rw_epoch = 0;
    jn_epoch = 0;
  };
  free_remaps = 128;
  rw_remaps = [];
  jn_remaps = [];
  ftl = ftl;
}

-- The page `first` of the log and the next one.
abbrev request : (first : ℕ) → PageRequest
request first = record {
  lpn = λ i. rw_log_start_in_page + first + i;
  bitmap = 0xffff;
  buffer = 9;
  half = λ i. record {
    addr_start = 0;
    io_count = 0;
    o_addr = λ j. 0;
    remap = record {
      remap_count = 0;
      t_addr = λ j. 0;
      o_addr = λ j. 0;
      epoch = 0;
      remap_offset = 0;
    };
  };
}

abbrev zeros : ModifyRead → Memory → Memory
zeros p m = m

rsp_write_page-Handled_example : Handled 1 state (rsp_write_page zeros 0 (request 0) state)
rsp_write_page-Handled_example = rsp_write_page-Handled zeros 0 (request 0) state

not_announced : find_twrite_entry 0 (rw_log_start_in_page + 5) state.headers.rw_twrites ≡ none
unfolding find_twrite_entry covers
not_announced = ground arith

write_half-IsStopped_example : IsStopped (write_half zeros 0 (request 5) 0 0 state)
write_half-IsStopped_example =
    write_half-IsStopped zeros 0 (request 5) 0 0 state (omega arith) (omega arith) not_announced
