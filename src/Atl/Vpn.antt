-- ===== src/Atl/Vpn.antt =====
-- The address macros of ATLWrapper.cpp: virtual page numbers in NAND, and the codes that stand in the
-- page map for a page that is still in a write buffer.
use shrd_simulator.Base.{
  ℕ, ◌+◌, ◌-◌, ◌*◌, ◌/◌, ◌%◌, ◌<◌, ◌≡◌, refl, ap, ◌∙◌, Bool, true, arith, ltb, leb, if◌then◌else◌,
}
use shrd_simulator.Config.{
  pages_per_blk, planes_per_bank, banks_per_channel, blks_per_plane, lpage_per_ppage,
  pages_per_bank, num_channels,
}
use shrd_simulator.Atl.Cache.State.{write_buffer_bit, vc_max, num_pvpn}

-- The kinds of writes, each with its write buffer, its open block and its area of logical pages.
pub data WriteType : Type 0 where
  shrd_sw : WriteType
  shrd_rw : WriteType
  shrd_jn : WriteType

abbrev pub get_channel : ℕ → ℕ
get_channel cur_write_bank = cur_write_bank % num_channels

abbrev pub get_bank : ℕ → ℕ
get_bank cur_write_bank = cur_write_bank / num_channels

abbrev pub get_plane : ℕ → ℕ
get_plane page_offset = page_offset / pages_per_blk % planes_per_bank

abbrev pub get_block : ℕ → ℕ
get_block page_offset = page_offset / pages_per_blk

abbrev pub get_super_block : ℕ → ℕ
get_super_block page_offset = page_offset / (planes_per_bank * lpage_per_ppage * pages_per_blk)

abbrev pub get_page_offset : ℕ → ℕ
get_page_offset page_offset = page_offset % pages_per_blk

abbrev pub generate_vpn : (channel bank block plane page high_low : ℕ) → ℕ
generate_vpn channel bank block plane page high_low =
    ((channel * banks_per_channel + bank) * pages_per_bank
        + (block * blks_per_plane + plane) * pages_per_blk
        + page)
      * lpage_per_ppage
    + high_low

-- BANKS_PER_CHANNEL * PLANES_PER_BANK * BLKS_PER_PLANE * PAGES_PER_BLK * LPAGE_PER_PPAGE
abbrev vpns_per_channel : ℕ
vpns_per_channel =
    banks_per_channel * planes_per_bank * blks_per_plane * pages_per_blk * lpage_per_ppage

abbrev pub get_channel_from_vpn : ℕ → ℕ
get_channel_from_vpn vpn = vpn / vpns_per_channel

abbrev get_vpn_offset_in_channel : ℕ → ℕ
get_vpn_offset_in_channel vpn = vpn % vpns_per_channel

abbrev pub get_bank_from_vpn : ℕ → ℕ
get_bank_from_vpn vpn =
    get_vpn_offset_in_channel vpn
    / (planes_per_bank * blks_per_plane * pages_per_blk * lpage_per_ppage)

-- The NAND address that write_page gives the half page `off` of a plane, where the bank writes its
-- page `new_vpn`.
abbrev pub plane_ppn : (channel bank new_vpn plane off : ℕ) → ℕ
plane_ppn channel bank new_vpn plane off =
    ((channel * banks_per_channel + bank) * pages_per_bank
        + new_vpn / pages_per_blk * planes_per_bank * pages_per_blk
        + plane * pages_per_blk
        + new_vpn % pages_per_blk)
      * lpage_per_ppage
    + off

-- `vpn & WRITE_BUFFER_BIT` and `vpn ^ WRITE_BUFFER_BIT` on 32 bits, where the bit is the highest.
abbrev pub is_in_write_buffer : ℕ → Bool
is_in_write_buffer vpn = leb write_buffer_bit vpn

abbrev pub flip_buffer_bit : ℕ → ℕ
flip_buffer_bit vpn =
    if ltb vpn write_buffer_bit then vpn + write_buffer_bit else vpn - write_buffer_bit

abbrev write_type_num : ℕ
write_type_num = 3

-- The place of a half page in the write buffers.
pub record BufferPlace : Type 0 where
  pub channel : ℕ
  pub bank : ℕ
  pub write_type : ℕ
  pub plane : ℕ
  pub buf_offset : ℕ

-- The number of the half page `slot` of a bank's write buffer, and the code that carries it.
abbrev buffer_number : (channel bank write_type slot : ℕ) → ℕ
buffer_number channel bank write_type slot =
    ((channel * banks_per_channel + bank) * write_type_num + write_type)
      * planes_per_bank
      * lpage_per_ppage
    + slot

abbrev pub buffer_vpn : (channel bank write_type slot : ℕ) → ℕ
buffer_vpn channel bank write_type slot =
    flip_buffer_bit (buffer_number channel bank write_type slot)

abbrev place_of_number : ℕ → BufferPlace
place_of_number v =
    let in_channel = v % (banks_per_channel * write_type_num * planes_per_bank * lpage_per_ppage) in
    let in_bank = in_channel % (write_type_num * planes_per_bank * lpage_per_ppage) in
    let in_type = in_bank % (planes_per_bank * lpage_per_ppage) in
    record {
      channel = v / (banks_per_channel * write_type_num * planes_per_bank * lpage_per_ppage);
      bank = in_channel / (write_type_num * planes_per_bank * lpage_per_ppage);
      write_type = in_bank / (planes_per_bank * lpage_per_ppage);
      plane = in_type / lpage_per_ppage;
      buf_offset = in_type % lpage_per_ppage;
    }

abbrev pub buffer_place : ℕ → BufferPlace
buffer_place vpn = place_of_number (flip_buffer_bit vpn)

abbrev pub number_of_place : BufferPlace → ℕ
number_of_place p =
    buffer_number p.channel p.bank p.write_type (p.plane * lpage_per_ppage + p.buf_offset)

abbrev pub code_of_place : BufferPlace → ℕ
code_of_place p =
    buffer_vpn p.channel p.bank p.write_type (p.plane * lpage_per_ppage + p.buf_offset)

pub record PlaceInRange (p : BufferPlace) : Type 0 where
  pub channel : p.channel < num_channels
  pub bank : p.bank < banks_per_channel
  pub write_type : p.write_type < write_type_num
  pub plane : p.plane < planes_per_bank
  pub buf_offset : p.buf_offset < lpage_per_ppage

pub flip_buffer_bit-twice : (n : ℕ) → n < write_buffer_bit → flip_buffer_bit (flip_buffer_bit n) ≡ n
flip_buffer_bit-twice n h = ground arith

flip_buffer_bit-in_buffer :
    (n : ℕ)
    → n < 192
    → (is_in_write_buffer (flip_buffer_bit n) ≡ true) × (flip_buffer_bit n < vc_max)
flip_buffer_bit-in_buffer n h = ground arith

-- The fields of a place come out of its number, one division after the other.
place_of_number-fields :
    (c b w q o : ℕ)
    → b < 2
    → w < 3
    → q < 4
    → o < 2
    → place_of_number (buffer_number c b w (q * 2 + o))
      ≡ record { channel = c; bank = b; write_type = w; plane = q; buf_offset = o }
place_of_number-fields c b w q o hb hw hq ho =
    let n = buffer_number c b w (q * 2 + o) in
    let e1 : n / 48 ≡ c = omega arith in
    let e2 : n % 48 / 24 ≡ b = omega arith in
    let e3 : n % 48 % 24 / 8 ≡ w = omega arith in
    let e4 : n % 48 % 24 % 8 / 2 ≡ q = omega arith in
    let e5 : n % 48 % 24 % 8 % 2 ≡ o = omega arith in rw (e1, e2, e3, e4, e5) refl

-- A place in range has a code with the write buffer bit, which is not VC_MAX, and the code's place is
-- the place itself.
pub code_of_place-back :
    (p : BufferPlace)
    → PlaceInRange p
    → (buffer_place (code_of_place p) ≡ p)
      × (is_in_write_buffer (code_of_place p) ≡ true)
      × (code_of_place p < vc_max)
code_of_place-back p r =
    let small : number_of_place p < 192 =
      omega (arith, r.channel, r.bank, r.write_type, r.plane, r.buf_offset) in
    let fields =
      place_of_number-fields p.channel p.bank p.write_type p.plane p.buf_offset r.bank r.write_type
        r.plane r.buf_offset in
    (
      ap place_of_number (flip_buffer_bit-twice (number_of_place p) (omega (arith, small)))
          ∙ fields,
      (flip_buffer_bit-in_buffer (number_of_place p) small).0,
      (flip_buffer_bit-in_buffer (number_of_place p) small).1,
    )

-- A page of a super block of a bank, with the half page of a plane.
pub record NandPlace : Type 0 where
  pub channel : ℕ
  pub bank : ℕ
  pub new_vpn : ℕ
  pub plane : ℕ
  pub off : ℕ

pub record NandInRange (p : NandPlace) : Type 0 where
  pub channel : p.channel < num_channels
  pub bank : p.bank < banks_per_channel
  pub new_vpn : p.new_vpn < blks_per_plane * pages_per_blk
  pub plane : p.plane < planes_per_bank
  pub off : p.off < lpage_per_ppage

abbrev pub vpn_of : NandPlace → ℕ
vpn_of p = plane_ppn p.channel p.bank p.new_vpn p.plane p.off

-- What the macros read from an address: the fields, the super block and the page.
pub record Reads (vpn : ℕ) (p : NandPlace) : Type 0 where
  pub channel : get_channel_from_vpn vpn ≡ p.channel
  pub bank : get_bank_from_vpn vpn ≡ p.bank
  pub super_block :
      get_super_block (vpn % (pages_per_bank * lpage_per_ppage)) ≡ p.new_vpn / pages_per_blk
  pub plane : get_plane (vpn / lpage_per_ppage % pages_per_bank) ≡ p.plane
  pub block :
      get_block (vpn / lpage_per_ppage % pages_per_bank)
      ≡ p.new_vpn / pages_per_blk * planes_per_bank + p.plane
  pub page : get_page_offset (vpn / lpage_per_ppage % pages_per_bank) ≡ p.new_vpn % pages_per_blk
  pub off : vpn % lpage_per_ppage ≡ p.off
  pub bound : vpn < num_pvpn

record InBank (s q g x : ℕ) : Type 0 where
  bound : x < 1017344
  super_block : x / 512 ≡ s
  plane : x / 128 % 4 ≡ q
  block : x / 128 ≡ s * 4 + q
  page : x % 128 ≡ g

InBank-parts : (s q g : ℕ) → s < 1987 → q < 4 → g < 128 → InBank s q g (s * 4 * 128 + q * 128 + g)
InBank-parts s q g hs hq hg = record {
  bound = omega arith;
  super_block = omega arith;
  plane = omega arith;
  block = omega arith;
  page = omega arith;
}

record InVpn (n x o vpn : ℕ) : Type 0 where
  number : vpn / 2034688 ≡ n
  half : vpn / 2 % 1017344 ≡ x
  offset : vpn % 2034688 ≡ x * 2 + o
  off : vpn % 2 ≡ o

vpn_parts : (n x o : ℕ) → x < 1017344 → o < 2 → InVpn n x o ((n * 1017344 + x) * 2 + o)
vpn_parts n x o hx ho = record {
  number = omega arith;
  half = omega arith;
  offset = omega arith;
  off = omega arith;
}

-- The macros read back from the address of a place in range its channel, bank, super block, plane,
-- block of the plane, page and half, and the address is one of the NAND.
pub vpn_of-Reads : (p : NandPlace) → NandInRange p → Reads (vpn_of p) p
vpn_of-Reads p r =
    let s = p.new_vpn / 128 in
    let g = p.new_vpn % 128 in
    let x = s * 4 * 128 + p.plane * 128 + g in
    let hs : s < 1987 = omega (arith, r.new_vpn) in
    let hg : g < 128 = omega arith in
    let parts = InBank-parts s p.plane g hs r.plane hg in
    let whole = vpn_parts (p.channel * 2 + p.bank) x p.off parts.bound r.off in
    record {
      channel = omega (arith, whole.number, r.bank);
      bank = omega (arith, whole.number, r.bank);
      super_block = omega (arith, whole.offset, parts.super_block, r.off);
      plane = omega (arith, whole.half, parts.plane);
      block = omega (arith, whole.half, parts.block);
      page = omega (arith, whole.half, parts.page);
      off = omega (arith, whole.off);
      bound = omega (arith, whole.number, r.channel, r.bank);
    }
