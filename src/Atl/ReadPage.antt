-- ===== src/Atl/ReadPage.antt =====
-- RSP_ReadPage: the read of one logical page, out of a write buffer or out of NAND.
--
-- The page map is the flat map `map_of` that the cache of the map implements (Atl.Cache). A buffer
-- is a function from its 512-byte sectors to their contents. A counter of the
-- profile is named by the area of the page.
use shrd_simulator.Base.{
  ℕ, zero, suc, ◌+◌, ◌-◌, ◌*◌, ◌/◌, ◌%◌, ◌^◌, ◌≤◌, ◌<◌, ◌≡◌, refl, Bool, true, false, Option, none,
  some, arith, ◌==◌, ltb, leb, if◌then◌else◌, not, ◌&&◌, ◌||◌, inl, inr, Bool-cases, ap, ◌∙◌,
}
use shrd_simulator.Config.{
  rw_log_start_in_page, jn_log_start_in_page, confirm_read_cmd_in_page, twrite_cmd_in_page,
  lpage_per_ppage, pages_per_bank, pages_per_blk, planes_per_bank,
}
use shrd_simulator.Atl.Cache.State.{vc_max, num_pvpn}
use shrd_simulator.Atl.Vpn.{
  BufferPlace, buffer_place, code_of_place, PlaceInRange, code_of_place-back, is_in_write_buffer,
  get_plane, get_block, get_page_offset, generate_vpn, get_channel_from_vpn, get_bank_from_vpn,
  NandPlace, NandInRange, vpn_of, vpn_of-Reads, WriteType, shrd_sw, shrd_rw, shrd_jn,
}

abbrev pub Sectors : Type 0
Sectors = ℕ → ℕ

abbrev pub sectors_per_page : ℕ
sectors_per_page = 16

-- RSP_CheckBit on the bit of a sector
abbrev pub check_bit : (bitmap sector : ℕ) → Bool
check_bit bitmap sector = bitmap / 2 ^ sector % 2 == 1

abbrev copy_sector : (dst src : Sectors) → ℕ → Sectors
copy_sector dst src sector i = if i == sector then src i else dst i

-- The loop, with `n` sectors left.
pub copy_loop : (n bitmap : ℕ) → (dst src : Sectors) → Sectors
copy_loop zero bitmap dst src = dst
copy_loop (suc n) bitmap dst src =
    let sector = sectors_per_page - suc n in
    copy_loop n bitmap (if check_bit bitmap sector then copy_sector dst src sector else dst) src

abbrev pub buffer_copy : (bitmap : ℕ) → (dst src : Sectors) → Sectors
buffer_copy bitmap dst src = copy_loop sectors_per_page bitmap dst src

-- RSPReadOp. `low` says that pData is half a page before the buffer of the request.
pub record IssuedRead : Type 0 where
  pub request : ℕ
  pub channel : ℕ
  pub bank : ℕ
  pub block : ℕ
  pub page : ℕ
  pub bitmap : ℕ
  pub half_before : Bool
  pub vpn : ℕ
  pub lpn : ℕ

abbrev pub area_of : ℕ → WriteType
area_of lpn =
    if leb rw_log_start_in_page lpn
    then shrd_rw
    else if leb jn_log_start_in_page lpn
    then shrd_jn
    else shrd_sw

-- What the read returns: the area that chooses the counter of the profile, and the buffer or the operation that it issues.
pub data ReadResult : Type 0 where
  read_error : WriteType → ReadResult
  read_write_buffer : WriteType → (ℕ → ℕ) → ReadResult
  read_nand : WriteType → IssuedRead → ReadResult

abbrev read_bitmap : ℕ → ℕ
read_bitmap vpn = if vpn % lpage_per_ppage == 0 then 0xff else 0xff00

abbrev pub read_op : (request lpn vpn : ℕ) → IssuedRead
read_op request lpn vpn =
    let channel = get_channel_from_vpn vpn in
    let bank = get_bank_from_vpn vpn in
    let page_in_bank = vpn / lpage_per_ppage % pages_per_bank in
    let block = get_block page_in_bank % 2 ^ 16 in
    let page = get_page_offset page_in_bank in
    let high = read_bitmap vpn == 0xff00 in
    record {
      request = request;
      channel = channel % 2 ^ 8;
      bank = bank % 2 ^ 8;
      block = block;
      page = page;
      bitmap = read_bitmap vpn;
      half_before = high;
      vpn = generate_vpn channel bank block (get_plane page_in_bank) page (if high then 1 else 0);
      lpn = lpn;
    }

-- The sectors of a half page of the write buffers, which hold whole pages.
abbrev pub Buffers : Type 0
Buffers = (channel bank write_type plane : ℕ) → Sectors

abbrev pub half_of : Buffers → BufferPlace → Sectors
half_of buffers p sector =
    buffers p.channel p.bank p.write_type p.plane
      (p.buf_offset * (sectors_per_page / lpage_per_ppage) + sector)

-- The part of RSP_ReadPage after get_vpn.
abbrev read_mapped : (request lpn bitmap vpn : ℕ) → Buffers → (dst : Sectors) → Option ReadResult
read_mapped request lpn bitmap vpn buffers dst =
    if not (ltb lpn twrite_cmd_in_page)
      || not (ltb vpn num_pvpn || vpn == vc_max || is_in_write_buffer vpn)
    then none
    else if vpn == vc_max
    then some (read_error (area_of lpn))
    else if is_in_write_buffer vpn
    then some (
        read_write_buffer (area_of lpn)
          (buffer_copy bitmap dst (half_of buffers (buffer_place vpn))))
    else some (read_nand (area_of lpn) (read_op request lpn vpn))

-- RSP_ReadPage; `none` is RSP_ASSERT.
pub rsp_read_page :
    (map_of : ℕ → ℕ) → (request lpn bitmap : ℕ) → Buffers → (dst : Sectors) → Option ReadResult
rsp_read_page map_of request lpn bitmap buffers dst =
    if leb confirm_read_cmd_in_page lpn
    then some (read_error (area_of lpn))
    else read_mapped request lpn bitmap (map_of lpn) buffers dst

-- The loop with `n` sectors left copies those of the last `n` whose bit is set.
pub copy_loop-sector :
    (n bitmap : ℕ) (dst src : Sectors) (i : ℕ)
    → n ≤ sectors_per_page
    → copy_loop n bitmap dst src i ≡ (
        if ltb i sectors_per_page && leb (sectors_per_page - n) i && check_bit bitmap i
        then src i
        else dst i)
unfolding copy_loop
copy_loop-sector zero bitmap dst src i h = ground arith
copy_loop-sector (suc n) bitmap dst src i h =
    let sector = sectors_per_page - suc n in
    let rest = λ (d : Sectors). copy_loop-sector n bitmap d src i (omega arith) in
    elim (Bool-cases (check_bit bitmap sector)) [
      | inl set ↦
          let at : i ≡ sector → check_bit bitmap i ≡ true = λ e. ap (check_bit bitmap) e ∙ set in
          rw set (rest (copy_sector dst src sector) ∙ ground (arith, at))
      | inr unset ↦
          let at : i ≡ sector → check_bit bitmap i ≡ false = λ e. ap (check_bit bitmap) e ∙ unset in
          rw unset (rest dst ∙ ground (arith, at))
    ]

module _ (map_of : ℕ → ℕ) (request lpn bitmap : ℕ) (buffers : Buffers) (dst : Sectors) where
  -- A read below the commands of a page that the map has in a write buffer gives the requested
  -- sectors of that half page, and leaves the other sectors of the request's buffer.
  pub rsp_read_page-buffer :
      (p : BufferPlace)
      → PlaceInRange p
      → lpn < twrite_cmd_in_page
      → map_of lpn ≡ code_of_place p
      → (out : Sectors) × (rsp_read_page map_of request lpn bitmap buffers dst
          ≡ some (read_write_buffer (area_of lpn) out))
        × ((i : ℕ)
            → out i ≡ (
                if ltb i sectors_per_page && check_bit bitmap i
                then half_of buffers p i
                else dst i))
  unfolding rsp_read_page
  rsp_read_page-buffer p r low e =
      let (back, marked, below) = code_of_place-back p r in
      let below_confirm : leb confirm_read_cmd_in_page lpn ≡ false = ground (arith, low) in
      let below_cmd : ltb lpn twrite_cmd_in_page ≡ true = ground (arith, low) in
      let mapped : (code_of_place p == vc_max) ≡ false = ground (arith, below) in
      (
        buffer_copy bitmap dst (half_of buffers p),
        rw (below_confirm, e, below_cmd, mapped, marked, back) (ground arith),
        λ i. ground (arith, copy_loop-sector 16 bitmap dst (half_of buffers p) i (omega arith)),
      )

  -- A read below the commands of a page that the map has in NAND issues one read of that place: its
  -- channel and bank, the block of its plane, its page, and the half of the page that it is.
  pub rsp_read_page-nand :
      (p : NandPlace)
      → NandInRange p
      → lpn < twrite_cmd_in_page
      → map_of lpn ≡ vpn_of p
      → (op : IssuedRead) × (rsp_read_page map_of request lpn bitmap buffers dst
          ≡ some (read_nand (area_of lpn) op))
        × (op.channel ≡ p.channel)
        × (op.bank ≡ p.bank)
        × (op.block ≡ p.new_vpn / pages_per_blk * planes_per_bank + p.plane)
        × (op.page ≡ p.new_vpn % pages_per_blk)
        × (op.bitmap ≡ (if p.off == 0 then 0xff else 0xff00))
  unfolding rsp_read_page
  rsp_read_page-nand p r low e =
      let k = vpn_of-Reads p r in
      let below_confirm : leb confirm_read_cmd_in_page lpn ≡ false = ground (arith, low) in
      let below_cmd : ltb lpn twrite_cmd_in_page ≡ true = ground (arith, low) in
      let in_nand : ltb (vpn_of p) num_pvpn ≡ true = ground (arith, k.bound) in
      let mapped : (vpn_of p == vc_max) ≡ false = ground (arith, k.bound) in
      let unmarked : is_in_write_buffer (vpn_of p) ≡ false = ground (arith, k.bound) in
      (
        read_op request lpn (vpn_of p),
        rw (below_confirm, e, below_cmd, in_nand, mapped, unmarked) refl,
        omega (arith, k.channel, r.channel),
        omega (arith, k.bank, r.bank),
        omega (arith, k.plane, k.page, k.block),
        k.page,
        ground (arith, k.off),
      )
