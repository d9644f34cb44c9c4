-- ===== src/Vfl.antt =====
-- VFLWrapper.cpp: the NAND of a core as two files, one for the pages and one for their spare data.
-- A file is a function from positions to bytes; a buffer is a function from offsets to bytes.
-- The files themselves (fopen, _fseeki64, fread, fwrite) are those of the C library: `write_at` and
-- `read_at` say what the program uses of them.
pub mod Places
pub mod Pages
pub mod Tests
use shrd_simulator.Base.{
  ℕ, ◌+◌, ◌-◌, ◌*◌, ◌%◌, ◌^◌, Bool, true, false, Option, none, some, List, [], ◌∷◌, ◌++◌, ◌==◌, leb,
  ltb, if◌then◌else◌, ◌&&◌,
}
use shrd_simulator.Config.{u32, planes_per_bank, banks_per_channel, blks_per_plane, lpage_per_ppage}

abbrev pub block_data_size : ℕ
block_data_size = 1048576

abbrev pub block_oob_size : ℕ
block_oob_size = 2048

abbrev pub bytes_per_page : ℕ
bytes_per_page = 8192

abbrev pub bytes_per_lpn : ℕ
bytes_per_lpn = 512 * 8

-- The spare data of a page: two words of 4 bytes for each of its halves.
abbrev pub spare_bytes : ℕ
spare_bytes = 4 * 2 * lpage_per_ppage

-- nChannel, nBank, nBlock and nPage.
pub record Address : Type 0 where
  pub channel : ℕ
  pub bank : ℕ
  pub block : ℕ
  pub page : ℕ

-- A buffer in memory, at its address.
pub record Buffer : Type 0 where
  pub at : ℕ
  pub bytes : ℕ → ℕ

-- RSPProgramOp: `pData` may be NULL.
pub record ProgramOp : Type 0 where
  pub where_to : Address
  pub p_data : Option Buffer
  pub spare : ℕ → ℕ

-- RSPReadOp
pub record ReadOp : Type 0 where
  pub from : Address
  pub target_sector : ℕ

-- VFLWrapper, with the buffers that it has given back by HIL_BuffFree.
pub record Vfl : Type 0 where
  pub data_file : ℕ → ℕ
  pub oob_file : ℕ → ℕ
  pub latest_sparedata : ℕ → ℕ
  pub profile : ℕ → ℕ
  pub freed : List ℕ

unfoldable pub write_at : (ℕ → ℕ) → (pos size : ℕ) → (ℕ → ℕ) → ℕ → ℕ
write_at file pos size content p =
    if leb pos p && ltb p (pos + size) then content (p - pos) else file p

unfoldable pub read_at : (ℕ → ℕ) → ℕ → ℕ → ℕ
read_at file pos k = file (pos + k)

-- `seek` of every operation.
pub seek : Address → ℕ
seek a =
    a.channel * (banks_per_channel * planes_per_bank * blks_per_plane)
    + a.bank * (planes_per_bank * blks_per_plane)
    + a.block

pub page_pos : Address → ℕ
unfolding seek
page_pos a = seek a * block_data_size + a.page * bytes_per_page

pub spare_pos : Address → ℕ
unfolding seek
spare_pos a = seek a * block_oob_size + a.page * spare_bytes

-- The writes of a plane that has data.
pub program_page : Address → Buffer → (ℕ → ℕ) → Vfl → Vfl
unfolding write_at page_pos spare_pos
program_page a b spare v = record v {
  data_file = write_at v.data_file (page_pos a) bytes_per_page b.bytes;
  oob_file = write_at v.oob_file (spare_pos a) spare_bytes spare;
}

-- A plane of Issue(RSPProgramOp[4]): a page that is written goes back by HIL_BuffFree.
pub program_plane : Address → (ℕ → ℕ) → Option Buffer → Vfl → Vfl
unfolding program_page
program_plane a spare none v = v
program_plane a spare (some b) v =
    let w = program_page a b spare v in record w { freed = w.freed ++ b.at ∷ [] }

-- Issue(RSPProgramOp[4])
unfoldable pub issue_program : List ProgramOp → Vfl → Vfl
unfolding program_plane
issue_program [] v = v
issue_program (op ∷ ops) v = issue_program ops (program_plane op.where_to op.spare op.p_data v)

-- MetaIssue(RSPProgramOp[4])
pub meta_program_plane : Address → (ℕ → ℕ) → Option Buffer → Vfl → Vfl
unfolding program_page
meta_program_plane a spare none v = v
meta_program_plane a spare (some b) v = program_page a b spare v

pub meta_issue_program : List ProgramOp → Vfl → Vfl
unfolding meta_program_plane
meta_issue_program [] v = v
meta_issue_program (op ∷ ops) v =
    meta_issue_program ops (meta_program_plane op.where_to op.spare op.p_data v)

-- The half of the page that a read of 4 KB takes.
pub half : ReadOp → ℕ
half op = if op.target_sector == 0xff00 then 1 else 0

-- Issue(RSPReadOp): the 4 KB that come to the buffer, and the spare data of that half.
pub issue_read : ReadOp → Vfl → (ℕ → ℕ) × Vfl
unfolding read_at seek half
issue_read op v =
    let offset = op.from.page * lpage_per_ppage + half op in
    let spare = read_at v.oob_file (seek op.from * block_oob_size + offset * 2 * 4) in
    let place = if op.target_sector == 0xff then 0 else 8 in
    (
      read_at v.data_file (seek op.from * block_data_size + offset * 8 * 512),
      record v { latest_sparedata = write_at v.latest_sparedata place 8 spare },
    )

-- MetaIssue(RSPReadOp): a page of 8 KB.
pub meta_issue_read : ReadOp → Vfl → (ℕ → ℕ) × Vfl
unfolding read_at page_pos spare_pos
meta_issue_read op v = (
  read_at v.data_file (page_pos op.from),
  record v {
    latest_sparedata =
        write_at v.latest_sparedata 0 spare_bytes (read_at v.oob_file (spare_pos op.from));
  },
)

-- _GetSpareData
pub get_spare_data : Vfl → (ℕ → ℕ) → ℕ → ℕ
get_spare_data v spare_buf = write_at spare_buf 0 (4 * 4) v.latest_sparedata

-- The counters of the profile.
pub set_profile : (idx amount : ℕ) → Vfl → Vfl
set_profile idx amount v = record v { profile = λ i. if i == idx then amount else v.profile i }

pub inc_profile : (idx amount : ℕ) → Vfl → Vfl
unfolding set_profile
inc_profile idx amount v = set_profile idx ((v.profile idx + amount) % u32) v

pub dec_profile : (idx amount : ℕ) → Vfl → Vfl
unfolding set_profile
dec_profile idx amount v = set_profile idx ((v.profile idx + u32 - amount) % u32) v
