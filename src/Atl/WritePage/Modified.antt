-- ===== src/Atl/WritePage/Modified.antt =====
-- The overwrite of a page in a write buffer (write_page of ATLWrapper.cpp): its sectors go to the host's
-- buffer whose address the plane has.
use shrd_simulator.Base.{
  ℕ, ◌+◌, ◌*◌, ◌^◌, ◌<◌, ◌≡◌, ◌≢◌, refl, ap, true, false, Option, some, [], arith, ◌==◌,
  if◌then◌else◌, ==_iff,
}
use shrd_simulator.Atl.Cache.State.{vc_max, set_at}
use shrd_simulator.Atl.Vpn.{WriteType, BufferPlace, buffer_place, is_in_write_buffer}
use shrd_simulator.Atl.ReadPage.{check_bit}
use shrd_simulator.Atl.Buffer.{PageWrite, Memory, copy_into}
use shrd_simulator.Atl.Buffer.Overwrite.{low_bits, first_sector, copy_into-behind, copy_into-other}
use shrd_simulator.Atl.Ftl.{Ftl, code_buf, buf_number}
use shrd_simulator.Atl.WritePage.{done, modified, write_page}
use shrd_simulator.Atl.WritePage.Old.{
  ModifyRead, can_write, modified_at, modify_buffered, type_number, set_buf, more_sectors,
}

-- What the overwrite makes of the page at `old`, whose plane has the host's buffer `dst`.
pub record Overwritten (r : PageWrite) (old dst : ℕ) (s u : Ftl) : Type 0 where
  pub sectors :
      (i : ℕ)
      → i < 8
      → u.memory dst ((buffer_place old).buf_offset * 8 + i) ≡ (
          if check_bit (low_bits r) i
          then s.memory r.buffer (i + first_sector r)
          else s.memory dst ((buffer_place old).buf_offset * 8 + i))
  pub half :
      (off i : ℕ)
      → off < 2
      → off ≢ (buffer_place old).buf_offset
      → i < 8
      → u.memory dst (off * 8 + i) ≡ s.memory dst (off * 8 + i)
  pub others : (a : ℕ) → (a == dst) ≡ false → u.memory a ≡ s.memory a
  pub map_of : u.map_of ≡ s.map_of
  pub valid : u.valid ≡ s.valid

module _ (load : ModifyRead → Memory → Memory) (ty : WriteType) (r : PageWrite) (s : Ftl) (dst : ℕ)
    (can : can_write ty r.lpn (s.map_of r.lpn) ≡ true) (mapped : (s.map_of r.lpn == vc_max) ≡ false)
    (buffered : is_in_write_buffer (s.map_of r.lpn) ≡ true)
    (at : (s.bufs (code_buf (s.map_of r.lpn))).addr (buffer_place (s.map_of r.lpn)).plane
      ≡ some dst)
    (small : low_bits r < 256) where
  abbrev old : ℕ
  old = s.map_of r.lpn

  abbrev p : BufferPlace
  p = buffer_place old

  abbrev k : ℕ
  k = buf_number p.channel p.bank (type_number ty)

  abbrev after : Ftl
  after =
      set_buf k (more_sectors p.plane (low_bits r * 2 ^ (p.buf_offset * 8)) (s.bufs k))
        (set_at s.memory dst (
          copy_into (low_bits r) (s.memory dst) (p.buf_offset * 8) (s.memory r.buffer)
            (first_sector r)))
        s

  runs : write_page load ty r s ≡ modified (modified_at ty r old s (some dst))
  unfolding write_page modify_buffered
  runs = rw (can, mapped, buffered) (ap (λ (x : Option ℕ). modified (modified_at ty r old s x)) at)

  -- The write of a page that is in a write buffer, where the plane of its slot has the address of a
  -- host's buffer, returns false with nothing issued: the sectors of the request are in the half of
  -- that buffer where the slot lies, the other sectors of the half are as before, and so are the other
  -- half, all other memory, the map and the valid pages.
  pub write_page-Overwritten :
      (u : Ftl) × (write_page load ty r s ≡ done false u []) × Overwritten r old dst s u
  write_page-Overwritten =
      let here : (dst == dst) ≡ true = (==_iff dst dst).1 refl in
      (
        after,
        runs,
        record {
          sectors = λ i h. rw here (
              copy_into-behind (low_bits r) (s.memory dst) (p.buf_offset * 8) (s.memory r.buffer)
                (first_sector r) i small);
          half = λ off i ho ne h. rw here (
              copy_into-other (low_bits r) (s.memory dst) (s.memory r.buffer) (first_sector r) i off
                p.buf_offset small ho (omega arith) ne h);
          others = λ a ne. rw ne refl;
          map_of = refl;
          valid = refl;
        },
      )
