-- ===== src/Sim.antt =====
-- SHRD_sim.cpp: the parser of a line of a trace.
--
-- A line is the list of the tokens that strtok gives; a token is one of the words that the parser
-- compares with, or another text, with the number that atoi reads in it. `none` is a token that the
-- parser uses although the line has ended (a null pointer).
pub mod Print
use shrd_simulator.Base.{ℕ, Option, none, some, List, [], ◌∷◌}

pub data Token : Type 0 where
  shrd_trace : Token
  w : Token
  r : Token
  normal_request : Token
  twrite_hdr : Token
  o_addr : Token
  remap_data : Token
  t_addr : Token
  other : ℕ → Token

-- CMD_LINE, with the fields that its type gives a meaning. `unknown` is a line that the parser
-- reports as not complete.
pub data CmdLine : Type 0 where
  no_command : CmdLine
  write_request : (sector_address sector_count : ℕ) → CmdLine
  read_request : (sector_address sector_count : ℕ) → CmdLine
  normal_front : CmdLine
  twrite_hdr_front : (start count : ℕ) → CmdLine
  twrite_hdr_oaddr : ℕ → CmdLine
  remap_data_front : (count : ℕ) → CmdLine
  remap_data_addr : (t_addr o_addr : ℕ) → CmdLine
  unknown : CmdLine

-- atoi
unfoldable pub atoi : Token → ℕ
atoi (other n) = n
atoi t = 0

pub two_numbers : (ℕ → ℕ → CmdLine) → List Token → Option CmdLine
unfolding atoi
two_numbers make (a ∷ b ∷ ts) = some (make (atoi a) (atoi b))
two_numbers make ts = none

pub twrite_line : List Token → Option CmdLine
unfolding atoi two_numbers
twrite_line (o_addr ∷ a ∷ ts) = some (twrite_hdr_oaddr (atoi a))
twrite_line (o_addr ∷ []) = none
twrite_line ts = two_numbers twrite_hdr_front ts

pub remap_line : List Token → Option CmdLine
unfolding atoi
remap_line [] = none
remap_line (t_addr ∷ t ∷ u ∷ o ∷ ts) = some (remap_data_addr (atoi t) (atoi o))
remap_line (t_addr ∷ ts) = none
remap_line (a ∷ ts) = some (remap_data_front (atoi a))

pub command : List Token → Option CmdLine
unfolding two_numbers twrite_line remap_line
command [] = none
command (w ∷ ts) = two_numbers write_request ts
command (r ∷ ts) = two_numbers read_request ts
command (normal_request ∷ ts) = some normal_front
command (twrite_hdr ∷ ts) = twrite_line ts
command (remap_data ∷ ts) = remap_line ts
command (t ∷ ts) = some unknown

-- The search for "SHRD_TRACE".
pub after_trace : List Token → Option CmdLine
unfolding command
after_trace [] = some no_command
after_trace (shrd_trace ∷ ts) = command ts
after_trace (t ∷ ts) = after_trace ts

-- get_CMD_LINE: the first token of a line is not looked at.
pub get_cmd_line : List Token → Option CmdLine
unfolding after_trace
get_cmd_line [] = some no_command
get_cmd_line (t ∷ ts) = after_trace ts
