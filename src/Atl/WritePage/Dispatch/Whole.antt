-- ===== src/Atl/WritePage/Dispatch/Whole.antt =====
-- RSP_WritePage of ATLWrapper.cpp as a whole: the stocks of headers, and a page of a log that no twrite
-- has announced.
use shrd_simulator.Base.{
  ℕ, ◌≤◌, ◌<◌, ◌≡◌, inl, inr, refl, sym, subst, ap, ◌∙◌, true, false, none, List, [], ◌∷◌, arith,
  leb, ltb, Bool-cases,
}
use shrd_simulator.Config.{
  invalid_lpn, rw_log_start_in_page, jn_log_start_in_page, twrite_cmd_in_page, remap_cmd_in_page,
  confirm_read_cmd_in_page,
}
use shrd_simulator.Atl.Vpn.{shrd_rw}
use shrd_simulator.Atl.Buffer.{Memory}
use shrd_simulator.Atl.Headers.{TwriteEntry, covers, find_twrite_entry, find_twrite_o_lpn}
use shrd_simulator.Atl.Headers.Stock.{find_twrite_o_lpn-missing}
use shrd_simulator.Atl.Remap.{Remaps}
use shrd_simulator.Atl.WritePage.{Issued, Outcome, done, write_page}
use shrd_simulator.Atl.WritePage.Old.{ModifyRead}
use shrd_simulator.Atl.WritePage.Dispatch.Stock.{Stock, Stock-trans}
use shrd_simulator.Atl.WritePage.Dispatch.Halves.{Handled, write_half-Handled}
use shrd_simulator.Atl.WritePage.Dispatch.{
  PageRequest, Handling, handled, same_area, write_half, next_half, rsp_write_page, incremental_gc,
  after_issued, after_write, without, log_write, page_of,
}

second_half :
    (n : ℕ) (r u : Remaps) (issued : List Issued) (x : Handling)
    → n ≤ 1
    → Stock r u
    → Handled n u x
    → Handled 1 r (after_issued issued x)
second_half n r u issued (handled unused t more) h p (small, k) =
    (omega (arith, h, small), Stock-trans r u t p k)
second_half n r u issued Handling.collects h p k = tt
second_half n r u issued Handling.fails h p k = tt

module _ (load : ModifyRead → Memory → Memory) (core : ℕ) (q : PageRequest) (r : Remaps) where
  next_half-Handled : (x : Handling) → Handled 0 r x → Handled 1 r (next_half load core q x)
  next_half-Handled (handled unused u issued) (small, p) =
      second_half unused r u issued (write_half load core q 1 unused u) small p
        (write_half-Handled load core q 1 unused u)
  next_half-Handled Handling.collects p = tt
  next_half-Handled Handling.fails p = tt

  -- RSP_WritePage of any two half pages: where it returns, at most two halves do not use the host's
  -- buffer, and the headers of twrites and those of remaps, free and in use, are as many as before,
  -- whatever the halves hold.
  pub rsp_write_page-Handled : Handled 1 r (rsp_write_page load core q r)
  unfolding rsp_write_page
  rsp_write_page-Handled = elim (Bool-cases (same_area (q.lpn 0) (q.lpn 1))) [
    | inl same ↦
        rw same
          (next_half-Handled (write_half load core q 0 0 r) (write_half-Handled load core q 0 0 r))
    | inr apart ↦ rw apart tt
  ]

-- The step does not return: it fails, or waits for the garbage collection.
abbrev pub IsStopped : Handling → Type 0
IsStopped (handled unused r issued) = ⊥
IsStopped Handling.collects = Unit
IsStopped Handling.fails = Unit

without-missing :
    (core lpn : ℕ) (es : List TwriteEntry)
    → find_twrite_entry core lpn es ≡ none
    → without core lpn es ≡ none
unfolding without find_twrite_entry
without-missing core lpn [] e = refl
without-missing core lpn (f ∷ es) e = elim (Bool-cases (covers core lpn f)) [
  | inl here ↦ absurd (ground (arith, here, e))
  | inr behind ↦ rw (behind, without-missing core lpn es (sym (rw behind refl) ∙ e)) refl
]

after_write-IsStopped :
    (core lpn : ℕ) (r : Remaps) (n : ℕ) (o : Outcome)
    → without core lpn r.headers.rw_twrites ≡ none
    → IsStopped (incremental_gc (after_write core lpn shrd_rw r n o))
after_write-IsStopped core lpn r n (done kept s issued) e = rw e tt
after_write-IsStopped core lpn r n Outcome.collects e = tt
after_write-IsStopped core lpn r n Outcome.fails e = tt

-- A page of the log of random writes goes to the search of its twrite.
rw_half :
    (load : ModifyRead → Memory → Memory) (core : ℕ) (q : PageRequest) (loop n : ℕ) (r : Remaps)
    → rw_log_start_in_page ≤ q.lpn loop
    → q.lpn loop < twrite_cmd_in_page
    → write_half load core q loop n r
      ≡ incremental_gc
          (log_write load core shrd_rw q loop n r (find_twrite_o_lpn core (q.lpn loop) r.headers))
unfolding write_half
rw_half load core q loop n r from below =
    let lpn = q.lpn loop in
    let page : ltb lpn invalid_lpn ≡ true = ground (arith, below) in
    let special : ltb lpn jn_log_start_in_page ≡ false = ground (arith, from) in
    let no_read : leb confirm_read_cmd_in_page lpn ≡ false = ground (arith, below) in
    let no_remap : leb remap_cmd_in_page lpn ≡ false = ground (arith, below) in
    let no_twrite : leb twrite_cmd_in_page lpn ≡ false = ground (arith, below) in
    let log : leb rw_log_start_in_page lpn ≡ true = ground (arith, from) in
    rw (page, special, no_read, no_remap, no_twrite, log) refl

-- A half with a page of the log of random writes that no twrite in use covers is never handled: the
-- step fails, or waits for the garbage collection before that.
pub write_half-IsStopped :
    (load : ModifyRead → Memory → Memory) (core : ℕ) (q : PageRequest) (loop n : ℕ) (r : Remaps)
    → rw_log_start_in_page ≤ q.lpn loop
    → q.lpn loop < twrite_cmd_in_page
    → find_twrite_entry core (q.lpn loop) r.headers.rw_twrites ≡ none
    → IsStopped (write_half load core q loop n r)
write_half-IsStopped load core q loop n r from below missing =
    let lpn = q.lpn loop in
    let log : leb rw_log_start_in_page lpn ≡ true = ground (arith, from) in
    let runs =
      rw_half load core q loop n r from below
      ∙ ap (λ x. incremental_gc (log_write load core shrd_rw q loop n r x))
          (find_twrite_o_lpn-missing core lpn r.headers log missing) in
    subst IsStopped (sym runs) (
      after_write-IsStopped core lpn r n (write_page load shrd_rw (page_of q loop lpn) r.ftl)
        (without-missing core lpn r.headers.rw_twrites missing))
