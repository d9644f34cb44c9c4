-- ===== src/Atl/Remap/Tests.antt =====
-- The remaps of ATLWrapper.cpp on concrete inputs.
use shrd_simulator.Base.{
  ℕ, ◌*◌, ◌<◌, ◌≡◌, inl, inr, refl, sym, ◌∙◌, has, ◌&&◌, true, false, some, List, [], ◌∷◌, arith,
  ◌==◌, if◌then◌else◌, Bool-cases,
}
use shrd_simulator.Config.{rw_log_start_in_page, jn_log_start_in_page}
use shrd_simulator.Atl.Cache.State.{vc_max, write_buffer_bit}
use shrd_simulator.Atl.Vpn.{WriteType, shrd_rw, shrd_jn}
use shrd_simulator.Atl.Write.{BankState}
use shrd_simulator.Atl.Buffer.{WriteBuf}
use shrd_simulator.Atl.Ftl.{Ftl, PageBank, core_pages}
use shrd_simulator.Atl.Ftl.Counts.{base_of}
use shrd_simulator.Atl.Ftl.One.{one_valid, one_count}
use shrd_simulator.Atl.Ftl.Located.{MapOk, Located}
use shrd_simulator.Atl.Remap.{RemapEntry, Remaps, log_of, remap_handler, do_remap}
use shrd_simulator.Atl.Remap.Ready.{Ready}
use shrd_simulator.Atl.Remap.Share.{PairsApart, LogsReady, Shared}
use shrd_simulator.Atl.Remap.Handler.{remap_handler-Shared}
use shrd_simulator.Atl.Remap.Waits.{Done, do_remap-Done}

abbrev bank : (n : ℕ) → BankState
bank n = record {
  free_list = [];
  data_list = [];
  rw_log_list = 0 ∷ [];
  jn_log_list = 0 ∷ [];
  vcount = λ b. if n == 0 && b == 0 then 1 else 0;
  cur_vpn = λ t. 12800;
  write_start = λ t. true;
  meta_blk = 0;
  cur_meta_vpn = 0;
  meta_start = false;
}

abbrev page_bank : PageBank
page_bank = record {
  remained = λ b. 1;
  inbuff = 0;
  gc = record { index = 0; lpn = λ i. 0; cur_vt_vpn = vc_max; num_valid = 0 };
}

-- The page `log` is in NAND, and its block waits for its remap only. The page 100 is in slot 0 of the
-- buffer of the sequential writes.
abbrev buffer : (log k : ℕ) → WriteBuf
buffer log k = record {
  index = 1;
  bits = λ i. i == 0;
  addr = λ q. some q;
  sectors = λ q. 0xff;
  req_lpn = λ i. if k == 1 then log else 100;
  remap_lpn = λ i. 0;
}

abbrev place : (log l : ℕ) → ℕ
place log l = if l == log then 0 else if l == 100 then write_buffer_bit else vc_max

abbrev ftl : (log : ℕ) → Ftl
ftl log = record {
  map_of = place log;
  memory = λ a i. 0;
  core = record { banks = bank; dirty_bbp = λ i. false; cur_write_bank = 0 };
  pages = λ n. page_bank;
  bufs = buffer log;
  valid = λ x. x == 0;
}

ftl-Located : (log l : ℕ) → Located (ftl log) l (place log l)
ftl-Located log l = elim (Bool-cases (l == log)) [
  | inl e ↦ rw e (inr (inr (omega arith, refl)))
  | inr e ↦ elim (Bool-cases (l == 100)) [
    | inl f ↦ rw (e, f) (inr (inl (omega arith, omega arith, ground arith)))
    | inr f ↦ rw (e, f) (inl refl)
  ]
]

ftl-MapOk : (log : ℕ) → MapOk (ftl log)
ftl-MapOk log = record {
  located = ftl-Located log;
  only = λ l m e h. ground arith;
  counts = λ n b p q. inl (one_count n b p ∙ sym (one_valid 1024 (base_of n b)));
}

abbrev header : (log epoch : ℕ) → RemapEntry
header log epoch = record {
  remap_count = 1;
  t_addr = λ i. log * 2;
  o_addr = λ i. 200;
  epoch = epoch;
  remap_offset = 0;
}

header-PairsApart : (log epoch : ℕ) → 100 < log → log < core_pages → PairsApart 0 (header log epoch)
header-PairsApart log epoch h k = record {
  count = omega arith;
  pages = λ i a. (omega (arith, k), omega arith);
  logs = λ i j a b ne. absurd (one i j a.0 b.0 ne);
  homes = λ i j a b ne. absurd (one i j a.0 b.0 ne);
  kinds = λ i j a b. ground arith;
}
  where
    one : (i j : ℕ) → i < 1 → j < 1 → (i == j) ≡ false → ⊥
    one i j p q e = ground arith

abbrev remaps : (log : ℕ) → List RemapEntry → Remaps
remaps log waiting = record {
  headers = record {
    free_twrites = 128;
    rw_twrites = [];
    jn_twrites = [];
    rw_epoch = 7;
    jn_epoch = 5;
  };
  free_remaps = 3;
  rw_remaps = [];
  jn_remaps = waiting;
  ftl = ftl log;
}

abbrev rw_log : ℕ
rw_log = rw_log_start_in_page

abbrev jn_log : ℕ
jn_log = jn_log_start_in_page

-- The block of the page of the log waits for the remap of the header, and is in the list of the log.
log-Ready : (ty : WriteType) (log : ℕ) → has 0 (log_of ty (bank 0)) ≡ true → Ready ty (ftl log) 0 1
log-Ready ty log listed nand one = (omega arith, omega arith, λ closed. listed)

rw-LogsReady : LogsReady shrd_rw 0 0 1 (header rw_log 0) (ftl rw_log)
rw-LogsReady i p q a = log-Ready shrd_rw rw_log refl

jn-LogsReady : LogsReady shrd_jn 0 0 1 (header jn_log 4) (ftl jn_log)
jn-LogsReady i p q a = log-Ready shrd_jn jn_log refl

remap_handler-Shared_example :
    (v : Remaps) × (remap_handler 0 14418048 (header rw_log 0) (remaps rw_log []) ≡ some v)
    × Shared 0 0 (header rw_log 0) (ftl rw_log) v.ftl
    × (v.rw_remaps ≡ [])
    × (v.free_remaps ≡ 3)
    × (v.headers.rw_epoch ≡ 8)
remap_handler-Shared_example =
    remap_handler-Shared 0 14418048 (header rw_log 0) (remaps rw_log [])
      (header-PairsApart rw_log 0 (omega arith) (omega arith)) (ftl-MapOk rw_log) (λ n. refl)
      (λ i p q a. refl) rw-LogsReady (omega arith) (omega arith) refl

abbrev waiting : RemapEntry
waiting = header jn_log 4

do_remap-Done_example :
    (v : Remaps) × (do_remap 0 shrd_jn (remaps jn_log (waiting ∷ [])) ≡ some v)
    × Done 0 1 (waiting ∷ []) (remaps jn_log (waiting ∷ [])) v
do_remap-Done_example =
    do_remap-Done 0 4 (remaps jn_log (waiting ∷ []))
      (header-PairsApart jn_log 4 (omega arith) (omega arith), tt, tt) ((λ i p q a. refl), tt)
      (jn-LogsReady, tt) (ftl-MapOk jn_log) (λ n. refl) (refl, tt) refl (omega arith)
