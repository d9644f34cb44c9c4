-- ===== src/Vfl/Places.antt =====
-- The places of the pages in the files.
use shrd_simulator.Base.{ℕ, ◌+◌, ◌*◌, ◌<◌, ◌≡◌, true, arith, ◌==◌, ◌&&◌, Bool}
use shrd_simulator.Config.{
  num_channels, banks_per_channel, planes_per_bank, blks_per_plane, pages_per_blk,
}
use shrd_simulator.Vfl.{Address, seek, page_pos, spare_pos, bytes_per_page, spare_bytes}

-- An address of the NAND. `block` counts the blocks of all planes of a bank.
pub record InNand (a : Address) : Type 0 where
  pub channel : a.channel < num_channels
  pub bank : a.bank < banks_per_channel
  pub block : a.block < planes_per_bank * blks_per_plane
  pub page : a.page < pages_per_blk

abbrev pub same_address : Address → Address → Bool
same_address a b =
    (a.channel == b.channel) && (a.bank == b.bank) && (a.block == b.block) && (a.page == b.page)

-- The number of a page.
abbrev pub number : Address → ℕ
number a = seek a * pages_per_blk + a.page

pub page_pos-number : (a : Address) → page_pos a ≡ number a * bytes_per_page
unfolding page_pos seek
page_pos-number a = omega arith

pub spare_pos-number : (a : Address) → spare_pos a ≡ number a * spare_bytes
unfolding spare_pos seek
spare_pos-number a = omega arith

pub number-same :
    (a b : Address) → InNand a → InNand b → number a ≡ number b → same_address a b ≡ true
unfolding seek
number-same a b i j e =
    let seeks : seek a ≡ seek b = omega (arith, i.page, j.page) in
    let channels : a.channel ≡ b.channel =
      omega (arith, seeks, i.channel, j.channel, i.bank, j.bank, i.block, j.block) in
    let banks : a.bank ≡ b.bank = omega (arith, seeks, channels, i.block, j.block) in
    ground (arith, seeks, channels, banks)
