-- ===== src/Atl/WritePage/Tests.antt =====
-- write_page of ATLWrapper.cpp on concrete inputs: a part of a page that is in NAND is written, and a
-- part of a page that is in a write buffer.
use shrd_simulator.Base.{
  ℕ, ◌+◌, some, ◌<◌, ◌≡◌, inl, inr, refl, sym, ◌∙◌, Bool, true, false, none, List, [], ◌∷◌, arith,
  ◌==◌, if◌then◌else◌, ◌&&◌, Bool-cases,
}
use shrd_simulator.Config.{invalid_lpn, rw_log_start_in_page}
use shrd_simulator.Atl.Cache.State.{vc_max, write_buffer_bit}
use shrd_simulator.Atl.Vpn.{shrd_sw, shrd_rw}
use shrd_simulator.Atl.Write.{BankState}
use shrd_simulator.Atl.Buffer.{WriteBuf, PageWrite, Memory, num_slots}
use shrd_simulator.Atl.Ftl.{Ftl, PageBank}
use shrd_simulator.Atl.Ftl.Counts.{base_of}
use shrd_simulator.Atl.Ftl.One.{one_valid, one_count}
use shrd_simulator.Atl.Ftl.Located.{MapOk, Located}
use shrd_simulator.Atl.WritePage.{Issued, done, write_page}
use shrd_simulator.Atl.WritePage.Old.{ModifyRead}
use shrd_simulator.Atl.WritePage.Modified.{Overwritten, write_page-Overwritten}
use shrd_simulator.Atl.WritePage.Slot.{Placed}
use shrd_simulator.Atl.WritePage.Settled.{Room, given, write_page-Placed}

abbrev bank : (n : ℕ) → BankState
bank n = record {
  free_list = [];
  data_list = [];
  rw_log_list = 0 ∷ [];
  jn_log_list = [];
  vcount = λ b. if n == 0 && b == 0 then 1 else 0;
  cur_vpn = λ t. 12800;
  write_start = λ t. true;
  meta_blk = 0;
  cur_meta_vpn = 0;
  meta_start = false;
}

abbrev page_bank : PageBank
page_bank = record {
  remained = λ b. 1;
  inbuff = 0;
  gc = record { index = 0; lpn = λ i. 0; cur_vt_vpn = vc_max; num_valid = 0 };
}

abbrev empty_buffer : WriteBuf
empty_buffer = record {
  index = 0;
  bits = λ i. false;
  addr = λ q. none;
  sectors = λ q. 0;
  req_lpn = λ i. invalid_lpn;
  remap_lpn = λ i. 0;
}

-- The first page of the log of random writes is the first half page of the first bank, there is no
-- other, and its block waits for its remap only.
abbrev ftl : Ftl
ftl = record {
  map_of = λ l. if l == rw_log_start_in_page then 0 else vc_max;
  memory = λ a i. 0;
  core = record { banks = bank; dirty_bbp = λ i. false; cur_write_bank = 0 };
  pages = λ n. page_bank;
  bufs = λ k. empty_buffer;
  valid = λ x. x == 0;
}

ftl-Located : (l : ℕ) → Located ftl l (if l == rw_log_start_in_page then 0 else vc_max)
ftl-Located l = elim (Bool-cases (l == rw_log_start_in_page)) [
  | inl e ↦ rw e (inr (inr (omega arith, refl)))
  | inr e ↦ rw e (inl refl)
]

ftl-MapOk : MapOk ftl
ftl-MapOk = record {
  located = ftl-Located;
  only = λ l m e h. ground arith;
  counts = λ n b p q. inl (one_count n b p ∙ sym (one_valid 1024 (base_of n b)));
}

abbrev request : PageWrite
request = record { lpn = rw_log_start_in_page; o_lpn = 100; bitmap = 0x0f; buffer = 9 }

abbrev ones : ModifyRead → Memory → Memory
ones p m = λ a i. if a == p.buffer then 1 else m a i

ftl-Room : (r : PageWrite) → Room shrd_rw r 0 ftl.bufs
ftl-Room r = record {
  cursor = omega arith;
  shape = record {
    bound = omega arith;
    later = λ k p q. refl;
    addr = λ q h. absurd (omega (arith, h));
    half = λ q h. absurd (omega (arith, h));
  };
  free = refl;
  more = refl;
  tail = λ e. refl;
}

write_page-Placed_example :
    (kept : Bool) × (slot : ℕ) × (u : Ftl) × (reads : List Issued) × (write_page ones shrd_rw
        request ftl
      ≡ done kept u reads)
    × (slot < num_slots)
    × Placed rw_log_start_in_page (given shrd_rw request 0 slot) ftl u
write_page-Placed_example =
    write_page-Placed ones shrd_rw request ftl refl ftl-MapOk
      (λ l from below. absurd (ground (arith, from, below))) (λ n. refl) (inr (omega arith))
      (λ last closed. refl) (ftl-Room _)

-- The page 100 is in slot 1 of the buffer of the sequential writes, in the host's buffer 7.
abbrev buffered_ftl : Ftl
buffered_ftl = record ftl {
  map_of = λ l. if l == 100 then write_buffer_bit + 1 else vc_max;
  bufs = λ k. record empty_buffer { index = 1; bits = λ i. i == 1; addr = λ q. some 7 };
}

abbrev overwriting : PageWrite
overwriting = record { lpn = 100; o_lpn = invalid_lpn; bitmap = 0x0f; buffer = 9 }

write_page-Overwritten_example :
    (u : Ftl) × (write_page ones shrd_sw overwriting buffered_ftl ≡ done false u [])
    × Overwritten overwriting (write_buffer_bit + 1) 7 buffered_ftl u
write_page-Overwritten_example =
    write_page-Overwritten ones shrd_sw overwriting buffered_ftl 7 refl refl refl refl (omega arith)
