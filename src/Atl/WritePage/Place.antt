-- ===== src/Atl/WritePage/Place.antt =====
-- The old place of a page that is written and is in no write buffer, and the code of its slot
-- (write_page of ATLWrapper.cpp).
use shrd_simulator.Base.{
  ℕ, ◌+◌, ◌-◌, ◌*◌, ◌^◌, ◌/◌, ◌%◌, ◌≤◌, ◌<◌, ◌≡◌, inl, inr, refl, sym, ap, subst, ◌∙◌, Bool, true,
  false, Option, some, arith, ◌==◌, Bool-cases, ==_iff,
}
use shrd_simulator.Config.{u32}
use shrd_simulator.Atl.Cache.State.{vc_max, num_pvpn, write_buffer_bit}
use shrd_simulator.Atl.Vpn.{
  BufferPlace, code_of_place-back, buffer_place, WriteType, shrd_sw, shrd_rw, shrd_jn,
}
use shrd_simulator.Atl.Buffer.{Owner, num_slots, slot_code}
use shrd_simulator.Atl.Buffer.Filled.{OwnerInRange, place_of, place_of-InRange, slot_code-place}
use shrd_simulator.Atl.Ftl.{
  ◌>>=◌, Ftl, nand_bank, nand_block, code_buf, code_slot, set_pages, count_of, buf_number,
}
use shrd_simulator.Atl.Ftl.Counts.{
  SameLogs, CountsOk, CountOk, GcIdle, leave_nand-Left, valid_from, base_of,
}
use shrd_simulator.Atl.Remap.{log_closed, set_remained}
use shrd_simulator.Atl.Remap.Ready.{Listed, Listed-same, close_log-returns}
use shrd_simulator.Atl.Remap.Kept.{Kept, set_pages-Kept, log_closed-Kept, Kept-trans, Kept-refl}
use shrd_simulator.Atl.WritePage.{give_up, one_remap_less}
use shrd_simulator.Atl.WritePage.Full.{wait_for, owner_buf}

-- A block of the journal waits for other remaps too, and one of the random writes that waits for no
-- other is in the list of its log when it is not written any more.
abbrev pub Waits : WriteType → (n block left : ℕ) → Ftl → Type 0
Waits shrd_sw n block left s = Unit {0}
Waits shrd_rw n block left s = (left == 0) ≡ true → Listed shrd_rw n block s
Waits shrd_jn n block left s = (left == 0) ≡ false

pub Waits-same :
    (ty : WriteType) (n block left less : ℕ) (s t : Ftl)
    → less ≡ left
    → SameLogs s t
    → Waits ty n block left s
    → Waits ty n block less t
Waits-same shrd_sw n block left less s t e same h = tt
Waits-same shrd_rw n block left less s t e same h =
    λ zero_left. Listed-same shrd_rw n block s t same (h (ap (λ k. k == 0) (sym e) ∙ zero_left))
Waits-same shrd_jn n block left less s t e same h = ap (λ k. k == 0) e ∙ h

wait_for-Kept :
    (ty : WriteType) (n block left : ℕ) (s : Ftl)
    → Waits ty n block left s
    → (t : Ftl) × (wait_for ty n block left s ≡ some t) × Kept s t
wait_for-Kept shrd_sw n block left s h = (s, refl, Kept-refl s)
wait_for-Kept shrd_rw n block left s h =
    let p = set_remained block left (s.pages n) in
    let t = set_pages n p s in
    elim (Bool-cases (left == 0)) [
      | inl last ↦ (
        log_closed shrd_rw n block t,
        rw last (close_log-returns shrd_rw n block t (h last)),
        Kept-trans s t (log_closed shrd_rw n block t) (set_pages-Kept n p s refl)
            (log_closed-Kept shrd_rw n block t),
      )
      | inr more ↦ (t, rw more refl, set_pages-Kept n p s refl)
    ]
wait_for-Kept shrd_jn n block left s h =
    let p = set_remained block left (s.pages n) in
    (set_pages n p s, rw h refl, set_pages-Kept n p s refl)

-- The page at `old` has given up this place, which is nowhere or in NAND, and nothing else has changed
-- for the pages.
pub record Vacant (old : ℕ) (s t : Ftl) : Type 0 where
  pub map_of : t.map_of ≡ s.map_of
  pub bufs : t.bufs ≡ s.bufs
  pub cursor : t.core.cur_write_bank ≡ s.core.cur_write_bank
  pub valid : (x : ℕ) → (x == old) ≡ false → t.valid x ≡ s.valid x
  pub gone : old < num_pvpn → t.valid old ≡ false
  pub counts : CountsOk t
  pub idle : GcIdle t

counts-Kept : (s t : Ftl) → Kept s t → CountsOk s → CountsOk t
counts-Kept s t k counts n b hn hb =
    subst (λ (c : ℕ). CountOk c (valid_from 1024 (base_of n b) t.valid)) (sym (k.counts n b))
      (subst (λ (f : ℕ → Bool). CountOk (count_of n b s) (valid_from 1024 (base_of n b) f))
        (sym k.valid) (counts n b hn hb))

-- The block of the page, with a remap less.
abbrev pub BlockWaits : WriteType → (old : ℕ) → Ftl → Type 0
BlockWaits ty old s =
    let n = nand_bank old in
    let block = nand_block old in Waits ty n block (((s.pages n).remained block + u32 - 1) % u32) s

pub give_up-Vacant :
    (ty : WriteType) (old lpn : ℕ) (s : Ftl)
    → old < num_pvpn
    → s.valid old ≡ true
    → CountsOk s
    → GcIdle s
    → BlockWaits ty old s
    → (t : Ftl) × (give_up ty old lpn s ≡ some t) × Vacant old s t
give_up-Vacant ty old lpn s h is counts idle waits =
    let n = nand_bank old in
    let block = nand_block old in
    let (t, left, l) = leave_nand-Left old lpn s h is counts idle in
    let less = λ (k : ℕ). (k + 2 ^ 32 - 1) % 2 ^ 32 in
    let (u, waited, k) = wait_for-Kept ty n block (less ((t.pages n).remained block)) t (
      Waits-same ty n block (less ((s.pages n).remained block)) (less ((t.pages n).remained block))
        s t (ap less (l.remained n block)) l.logs waits) in
    (
      u,
      ap (λ (o : Option Ftl). o >>= λ x. one_remap_less ty old x) left ∙ waited,
      record {
        map_of = k.map_of ∙ l.map_of;
        bufs = k.bufs ∙ l.bufs;
        cursor = k.cursor ∙ l.cursor;
        valid = λ x ne. ap (λ (f : ℕ → Bool). f x) (k.valid ∙ l.valid) ∙ rw ne refl;
        gone = λ below.
            ap (λ (f : ℕ → Bool). f old) (k.valid ∙ l.valid) ∙ rw ((==_iff old old).1 refl) refl;
        counts = counts-Kept t u k l.counts;
        idle = λ m. k.gc m ∙ l.idle m;
      },
    )

-- The used slots: every page whose place is a slot of a write buffer has a used one.
abbrev pub SlotsUsed : Ftl → Type 0
SlotsUsed s =
    (l : ℕ)
    → write_buffer_bit ≤ s.map_of l
    → s.map_of l < vc_max
    → (s.bufs (code_buf (s.map_of l))).bits (code_slot (s.map_of l)) ≡ true

-- The code of a slot leads to its write buffer and to it.
pub record Leads (o : Owner) (slot : ℕ) : Type 0 where
  pub buf : code_buf (slot_code o slot) ≡ owner_buf o
  pub at : code_slot (slot_code o slot) ≡ slot
  pub from : write_buffer_bit ≤ slot_code o slot
  pub below : slot_code o slot < vc_max

pub slot_code-Leads : (o : Owner) (slot : ℕ) → OwnerInRange o → slot < num_slots → Leads o slot
slot_code-Leads o slot range h =
    let (back, marked, below) =
      code_of_place-back (place_of o slot) (place_of-InRange o slot range h) in
    let e = slot_code-place o slot in
    let p = ap buffer_place e ∙ back in
    let whole : slot / 2 * 2 + slot % 2 ≡ slot = omega arith in
    record {
      buf = ap (λ (q : BufferPlace). buf_number q.channel q.bank q.write_type) p;
      at = ap (λ (q : BufferPlace). q.plane * 2 + q.buf_offset) p ∙ whole;
      from = subst (λ x. write_buffer_bit ≤ x) (sym e) (ground (arith, marked));
      below = subst (λ x. x < vc_max) (sym e) below;
    }
