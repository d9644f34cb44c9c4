-- ===== src/Atl/Write/Meta.antt =====
-- bank_meta_flush of ATLWrapper.cpp as a whole: it programs erased pages only, page after page, and
-- leaves every block alone that is neither free nor the block of the metadata.
use shrd_simulator.Base.{
  ◌+◌, ◌%◌, ◌≡◌, refl, ap, ◌∙◌, true, Option, some, List, [], ◌∷◌, ◌++◌, arith, ◌==◌, ◌&&◌,
  Bool-cases, inl, inr,
}
use shrd_simulator.Atl.Cache.State.{set_at}
use shrd_simulator.Atl.Write.{
  BankState, BlockOp, program_at, bank_meta_flush, switched, program_meta, get_free_block,
}
use shrd_simulator.Atl.Write.Nand.{
  Nand, run_next, run_ops, run_ops-append, has-apart, MetaOk, Frame,
}
use shrd_simulator.Atl.Write.Switch.{
  Step, kept-Frame, cur_meta, set_at-same, set_at-other, switched-Step,
}

-- The page that every flush programs is the next one of the block of the metadata.
pub record Flushed (b : BankState) (nand : Nand) (r : Option (BankState × List BlockOp))
    : Type 0 where
  pub next : BankState
  pub ops : List BlockOp
  pub done : r ≡ some (next, ops)
  pub after : Nand
  pub runs : run_ops ops nand ≡ some after
  pub ok : MetaOk next after
  pub frame : Frame b nand next after

program-Flushed :
    (b : BankState) (nand : Nand) (r : Option (BankState × List BlockOp))
    → Step b nand r cur_meta
    → Flushed b nand (program_meta r)
unfolding run_ops
program-Flushed b nand r s =
    let m = s.next.meta_blk in
    let at = s.next.cur_meta_vpn in
    let small : at % 128 ≡ at = omega (arith, s.ok.place) in
    let fits : (s.after m == at % 128) ≡ true = ground (arith, s.ok.written) in
    record {
      next = record {
        free_list = s.next.free_list;
        data_list = s.next.data_list;
        rw_log_list = s.next.rw_log_list;
        jn_log_list = s.next.jn_log_list;
        vcount = s.next.vcount;
        cur_vpn = s.next.cur_vpn;
        write_start = s.next.write_start;
        meta_blk = m;
        cur_meta_vpn = (at + 1) % 128;
        meta_start = true;
      };
      ops = s.ops ++ (program_at m (at % 128) ∷ []);
      done = ap program_meta s.done;
      after = set_at s.after m (at % 128 + 1);
      runs =
          run_ops-append s.ops (program_at m (at % 128) ∷ []) nand
          ∙ ap (run_next (run_ops (program_at m (at % 128) ∷ []))) s.runs
          ∙ rw fits refl;
      ok = record {
        distinct = s.ok.distinct;
        counted = s.ok.counted;
        blank = λ x h v.
            set_at-other s.after m x (at % 128 + 1) (has-apart x m s.next.free_list h s.ok.apart)
            ∙ s.ok.blank x h v;
        apart = s.ok.apart;
        place = omega arith;
        written = set_at-same s.after m (at % 128 + 1) ∙ ground (arith, s.ok.place);
      };
      frame = record {
        data_list = s.frame.data_list;
        rw_log_list = s.frame.rw_log_list;
        jn_log_list = s.frame.jn_log_list;
        cur_vpn = s.frame.cur_vpn;
        write_start = s.frame.write_start;
        taken = s.frame.taken;
        pages = λ x t.
            set_at-other s.after m x (at % 128 + 1) (s.frame.taken x t).1 ∙ s.frame.pages x t;
        vcount = s.frame.vcount;
      };
    }

-- From a bank in order, the flush of the metadata passes its assertions; every page that it programs
-- is the next erased page of its block, the bank is in order again, and the blocks that are neither
-- free nor the metadata's keep their pages, their counts and their lists.
pub bank_meta_flush-Flushed :
    (b : BankState) (nand : Nand) → MetaOk b nand → Flushed b nand (bank_meta_flush b)
unfolding bank_meta_flush run_ops
bank_meta_flush-Flushed b nand i = elim (Bool-cases (b.cur_meta_vpn == 0 && b.meta_start)) [
  | inl full ↦ rw full (
      program-Flushed b nand (switched (get_free_block b.free_list) b)
        (switched-Step b nand i (ground arith) b.free_list refl))
  | inr more ↦ rw more (
      program-Flushed b nand (some (b, [])) (record {
        next = b;
        ops = [];
        done = refl;
        after = nand;
        runs = refl;
        ok = record {
          distinct = i.distinct;
          counted = i.counted;
          blank = i.blank;
          apart = i.apart;
          place = i.place;
          written = i.written ∙ rw more refl;
        };
        frame = kept-Frame b nand;
      }))
]
