-- ===== src/Vfl/Tests.antt =====
-- VFLWrapper.cpp on concrete inputs.
use shrd_simulator.Base.{ℕ, ◌+◌, ◌*◌, ◌<◌, ◌≡◌, refl, some, none, List, [], ◌∷◌, arith}
use shrd_simulator.Vfl.{
  Address, ProgramOp, ReadOp, Vfl, issue_program, issue_read, bytes_per_lpn, half,
}
use shrd_simulator.Vfl.Places.{InNand}
use shrd_simulator.Vfl.Pages.{AllInNand, written, stored, issue_program-read}

abbrev blank : Vfl
blank = record {
  data_file = λ k. 0;
  oob_file = λ k. 0;
  latest_sparedata = λ k. 0;
  profile = λ k. 0;
  freed = [];
}

abbrev first_page : Address
first_page = record { channel = 3; bank = 1; block = 7947; page = 127 }

abbrev second_page : Address
second_page = record { channel = 3; bank = 1; block = 7946; page = 127 }

first_page-InNand : InNand first_page
first_page-InNand = record {
  channel = omega arith;
  bank = omega arith;
  block = omega arith;
  page = omega arith;
}

second_page-InNand : InNand second_page
second_page-InNand = record {
  channel = omega arith;
  bank = omega arith;
  block = omega arith;
  page = omega arith;
}

abbrev programs : List ProgramOp
programs =
    record {
      where_to = first_page;
      p_data = some (record { at = 8; bytes = λ k. k });
      spare = λ k. k + 1;
    }
    ∷ record {
      where_to = second_page;
      p_data = some (record { at = 9; bytes = λ k. 2 });
      spare = λ k. 3;
    }
    ∷ record { where_to = first_page; p_data = none; spare = λ k. 4 }
    ∷ []

programs-InNand : AllInNand programs
programs-InNand = (first_page-InNand, (second_page-InNand, (first_page-InNand, tt)))

abbrev high_half : ReadOp
high_half = record { from = first_page; target_sector = 0xff00 }

issue_program-read_example :
    ((k : ℕ)
      → k < bytes_per_lpn
      → (issue_read high_half (issue_program programs blank)).0 k
        ≡ (written first_page programs (stored blank first_page)).0
            (half high_half * bytes_per_lpn + k))
    × ((k : ℕ)
        → k < 8
        → (issue_read high_half (issue_program programs blank)).1.latest_sparedata (8 + k)
          ≡ (written first_page programs (stored blank first_page)).1 (half high_half * 8 + k))
issue_program-read_example =
    issue_program-read programs high_half blank programs-InNand first_page-InNand

-- Both pages with data go back, the plane without data does not.
freed_buffers : (issue_program programs blank).freed ≡ 8 ∷ 9 ∷ []
unfolding issue_program
freed_buffers = refl
