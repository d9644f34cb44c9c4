-- ===== src/Atl/Headers.antt =====
-- The headers of twrites: twrite_header_handler, find_twrite_oLPN and find_twrite_entry_of_tLPN.
--
-- `core` is THIS_CORE as an unsigned number: 0 or 1 is meant, and the build
-- has 2 ^ 32 - 1. The lists of headers are lists of their entries, head first; of the
-- free ones, which are overwritten, there is only the number. `none` is RSP_ASSERT.
pub mod Find
pub mod Stock
use shrd_simulator.Base.{
  ℕ, zero, suc, ◌+◌, ◌-◌, ◌*◌, ◌/◌, ◌%◌, ◌≤◌, ◌<◌, ◌≡◌, refl, ◌∙◌, inl, inr, Bool, true, false,
  Option, none, some, List, [], ◌∷◌, ◌++◌, arith, ◌==◌, leb, ltb, if◌then◌else◌, ◌&&◌, Bool-cases,
}
use shrd_simulator.Config.{
  u32, invalid_lpn, num_ftl_core, rw_log_start_in_page, jn_log_start_in_page,
}

abbrev pub num_max_twrite_entry : ℕ
num_max_twrite_entry = 1022

-- TWRITE_HDR_ENTRY
pub record TwriteEntry : Type 0 where
  pub addr_start : ℕ
  pub io_count : ℕ
  pub o_addr : ℕ → ℕ
  pub write_complete : ℕ → Bool
  pub epoch : ℕ
  pub remained : ℕ

-- free_twrite_list, RW_twrite_list, JN_twrite_list and epoch_number.
pub record Headers : Type 0 where
  pub free_twrites : ℕ
  pub rw_twrites : List TwriteEntry
  pub jn_twrites : List TwriteEntry
  pub rw_epoch : ℕ
  pub jn_epoch : ℕ

-- The pages of a twrite that belong to the core.
unfoldable pub remained_of : (core addr_start io_count : ℕ) → ℕ
remained_of core addr_start io_count =
    if io_count % num_ftl_core == 0
    then io_count / num_ftl_core
    else (if addr_start % num_ftl_core == core then 1 else 0) + io_count / num_ftl_core

pub new_entry : (core addr_start io_count : ℕ) → (ℕ → ℕ) → (epoch : ℕ) → TwriteEntry
unfolding remained_of
new_entry core addr_start io_count o_addr epoch = record {
  addr_start = addr_start;
  io_count = io_count;
  o_addr = o_addr;
  write_complete = λ i. false;
  epoch = epoch;
  remained = remained_of core addr_start io_count;
}

pub twrite_header_handler : (core addr_start io_count : ℕ) → (ℕ → ℕ) → Headers → Option Headers
twrite_header_handler core addr_start io_count o_addr s =
    let taken = record s { free_twrites = s.free_twrites - 1 } in
    if s.free_twrites == 0
    then none
    else if remained_of core addr_start io_count == 0
    then some s
    else if leb rw_log_start_in_page (addr_start / num_ftl_core)
    then some (record taken {
      rw_twrites = s.rw_twrites ++ new_entry core addr_start io_count o_addr s.rw_epoch ∷ [];
    })
    else if leb jn_log_start_in_page (addr_start / num_ftl_core)
    then some (record taken {
      jn_twrites = s.jn_twrites ++ new_entry core addr_start io_count o_addr s.jn_epoch ∷ [];
    })
    else none

-- The place of a page of the core in the host's pages.
abbrev pub place : (core t_lpn : ℕ) → ℕ
place core t_lpn = (t_lpn * num_ftl_core + core) % u32

unfoldable pub covers : (core t_lpn : ℕ) → TwriteEntry → Bool
covers core t_lpn e =
    ltb (place core t_lpn) ((e.addr_start + e.io_count) % u32)
    && leb e.addr_start (place core t_lpn)

-- find_twrite_entry_of_tLPN
unfoldable pub find_twrite_entry : (core t_lpn : ℕ) → List TwriteEntry → Option TwriteEntry
find_twrite_entry core t_lpn [] = none
find_twrite_entry core t_lpn (e ∷ es) =
    if covers core t_lpn e then some e else find_twrite_entry core t_lpn es

-- `write_complete[offset] = true` in that entry.
pub complete_write : (core t_lpn : ℕ) → List TwriteEntry → List TwriteEntry
complete_write core t_lpn [] = []
complete_write core t_lpn (e ∷ es) =
    if covers core t_lpn e
    then record e {
      write_complete =
          λ i. if i == place core t_lpn - e.addr_start then true else e.write_complete i;
    }
      ∷ es
    else e ∷ complete_write core t_lpn es

unfoldable pub o_lpn_of : (t_lpn o_addr : ℕ) → ℕ
o_lpn_of t_lpn o_addr =
    if o_addr == 0x3fffffff
    then t_lpn
    else if o_addr == invalid_lpn
    then invalid_lpn
    else o_addr / num_ftl_core

-- find_twrite_oLPN on one of the lists: whether there is an entry, and oLPN.
pub find_in : (core t_lpn : ℕ) → List TwriteEntry → Option (Bool × ℕ × List TwriteEntry)
find_in core t_lpn es = elim (find_twrite_entry core t_lpn es) [
  | none ↦ some (false, t_lpn, es)
  | some e ↦
      if ltb (place core t_lpn) e.addr_start
      then none
      else if e.remained == 0
      then none
      else some (
        true,
        o_lpn_of t_lpn (e.o_addr (place core t_lpn - e.addr_start)),
        complete_write core t_lpn es,
      )
]

-- find_twrite_oLPN
pub find_twrite_o_lpn : (core t_lpn : ℕ) → Headers → Option (Bool × ℕ × Headers)
find_twrite_o_lpn core t_lpn s =
    if leb rw_log_start_in_page t_lpn
    then elim (find_in core t_lpn s.rw_twrites) [
      | none ↦ none
      | some (found, o_lpn, es) ↦ some (found, o_lpn, record s { rw_twrites = es })
    ]
    else if leb jn_log_start_in_page t_lpn
    then elim (find_in core t_lpn s.jn_twrites) [
      | none ↦ none
      | some (found, o_lpn, es) ↦ some (found, o_lpn, record s { jn_twrites = es })
    ]
    else none

pub find_twrite_entry-last :
    (core t_lpn : ℕ) (es : List TwriteEntry) (e : TwriteEntry)
    → find_twrite_entry core t_lpn es ≡ none
    → covers core t_lpn e ≡ true
    → find_twrite_entry core t_lpn (es ++ e ∷ []) ≡ some e
unfolding find_twrite_entry
find_twrite_entry-last core t_lpn [] e h c = rw c refl
find_twrite_entry-last core t_lpn (f ∷ es) e h c = elim (Bool-cases (covers core t_lpn f)) [
  | inl first ↦ absurd (ground (arith, first))
  | inr later ↦ rw later (find_twrite_entry-last core t_lpn es e (ground (arith, later)) c)
]
