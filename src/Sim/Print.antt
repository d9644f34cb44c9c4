-- ===== src/Sim/Print.antt =====
-- The lines of a trace in the formats that get_CMD_LINE reads.
use shrd_simulator.Base.{ℕ, ◌≡◌, refl, ◌∙◌, some, List, [], ◌∷◌, ◌++◌}
use shrd_simulator.Sim.{
  Token, shrd_trace, w, r, normal_request, twrite_hdr, o_addr, remap_data, t_addr, other, CmdLine,
  write_request, read_request, normal_front, twrite_hdr_front, twrite_hdr_oaddr, remap_data_front,
  remap_data_addr, after_trace, get_cmd_line, command, two_numbers, twrite_line, remap_line, atoi,
}

-- A line of the trace. The range and the number of the entries of a remap are its first line.
data Line : Type 0 where
  write_line : (address count : ℕ) → Line
  read_line : (address count : ℕ) → Line
  normal_line : Line
  header_line : (start count : ℕ) → Line
  header_page : ℕ → Line
  remap_first : (start end count : ℕ) → Line
  remap_page : (t o : ℕ) → Line

print : Line → List Token
print (write_line a n) = w ∷ other a ∷ other n ∷ []
print (read_line a n) = r ∷ other a ∷ other n ∷ []
print normal_line = normal_request ∷ []
print (header_line s n) = twrite_hdr ∷ other s ∷ other n ∷ []
print (header_page o) = twrite_hdr ∷ o_addr ∷ other o ∷ []
print (remap_first s e n) = remap_data ∷ other s ∷ other e ∷ other n ∷ []
print (remap_page t o) = remap_data ∷ t_addr ∷ other t ∷ o_addr ∷ other o ∷ []

-- What the parser makes of a line. Of the first line of a remap it takes the start of the range for
-- the number of the entries.
meaning : Line → CmdLine
meaning (write_line a n) = write_request a n
meaning (read_line a n) = read_request a n
meaning normal_line = normal_front
meaning (header_line s n) = twrite_hdr_front s n
meaning (header_page o) = twrite_hdr_oaddr o
meaning (remap_first s e n) = remap_data_front s
meaning (remap_page t o) = remap_data_addr t o

-- Texts that are none of the words.
abbrev pub texts : List ℕ → List Token
texts [] = []
texts (n ∷ ns) = other n ∷ texts ns

command-print : (l : Line) → command (print l) ≡ some (meaning l)
unfolding print meaning command two_numbers twrite_line remap_line atoi
command-print (write_line a n) = refl
command-print (read_line a n) = refl
command-print normal_line = refl
command-print (header_line s n) = refl
command-print (header_page o) = refl
command-print (remap_first s e n) = refl
command-print (remap_page t o) = refl

skipped : (ns : List ℕ) (ts : List Token) → after_trace (texts ns ++ shrd_trace ∷ ts) ≡ command ts
unfolding after_trace
skipped [] ts = refl
skipped (n ∷ ns) ts = skipped ns ts

-- A line in one of the formats of a trace, behind any first token and any other texts, is parsed to
-- its command; of the first line of a remap the start of its range is taken for its number of
-- entries.
get_cmd_line-print :
    (first : Token) (ns : List ℕ) (l : Line)
    → get_cmd_line (first ∷ texts ns ++ shrd_trace ∷ print l) ≡ some (meaning l)
unfolding get_cmd_line
get_cmd_line-print first ns l = skipped ns (print l) ∙ command-print l
