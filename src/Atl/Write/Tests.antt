-- ===== src/Atl/Write/Tests.antt =====
-- The writes of a core after RSP_Open (ATLWrapper.cpp) on concrete inputs.
use shrd_simulator.Base.{◌%◌, ◌≡◌, refl, some, List, false, ◌==◌, ◌&&◌, ◌||◌}
use shrd_simulator.Atl.Vpn.{shrd_sw}
use shrd_simulator.Atl.Write.{BankState, BlockOp}
use shrd_simulator.Atl.Write.Nand.{Nand, run_ops}
use shrd_simulator.Atl.Write.Assign.{Core, flush_bank, assign_new_write_vpn_of}
use shrd_simulator.Atl.Write.Flush.{Nands, CoreFlushed, flush_bank-CoreFlushed}
use shrd_simulator.Atl.Write.Cursor.{BankOk}
use shrd_simulator.Atl.Write.Page.{CoreOk, Programs}
use shrd_simulator.Atl.Write.Erased.{is_empty, assign_new_write_vpn-Programs}
use shrd_simulator.Atl.Write.Open.{
  open_bank, opened, init_free, opened-Nand, opened-BankOk, open_bank-BankOk,
}

abbrev worn : Nand
worn = λ block. 128

-- A core after the start, with two dirty pages of block bitmaps.
abbrev core : Core
core = record { banks = λ n. opened; dirty_bbp = λ i. i == 3 || i == 40; cur_write_bank = 5 }

nands : Nands
nands = λ n. (opened-Nand worn).after

core-CoreOk : CoreOk core nands
unfolding nands
core-CoreOk n = opened-BankOk worn (opened-Nand worn)

open_bank-BankOk_example :
    (b : BankState) × (ops : List BlockOp) × (after : Nand) × (open_bank ≡ some (b, ops))
    × (run_ops ops worn ≡ some after)
    × BankOk b after
open_bank-BankOk_example = open_bank-BankOk worn

flush_bank-CoreFlushed_example : CoreFlushed core nands (flush_bank 0 core)
flush_bank-CoreFlushed_example = flush_bank-CoreFlushed 0 core nands (λ n. (core-CoreOk n).meta)

room : (opened.cur_vpn shrd_sw % 128 == 127 && is_empty opened.free_list) ≡ false
unfolding open_bank init_free
room = refl

assign_new_write_vpn-Programs_example : Programs 0 nands (assign_new_write_vpn_of shrd_sw 0 core)
assign_new_write_vpn-Programs_example =
    assign_new_write_vpn-Programs shrd_sw 0 core nands core-CoreOk room
