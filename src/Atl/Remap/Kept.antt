-- ===== src/Atl/Remap/Kept.antt =====
-- What the lists of blocks and the remaps that blocks wait for leave alone (__do_remap and write_page
-- of ATLWrapper.cpp).
use shrd_simulator.Base.{ℕ, ◌≡◌, refl, sym, ap, ◌∙◌, Bool-cases, inl, inr, ◌==◌, ==_iff}
use shrd_simulator.Atl.Cache.State.{set_at}
use shrd_simulator.Atl.Vpn.{WriteType}
use shrd_simulator.Atl.Write.{BankState}
use shrd_simulator.Atl.Ftl.{Ftl, PageBank, count_of, set_pages}
use shrd_simulator.Atl.Remap.{is_closed, log_to_data, log_closed}

set_at-vcount :
    (banks : ℕ → BankState) (n : ℕ) (bank : BankState) (m b : ℕ)
    → bank.vcount ≡ (banks n).vcount
    → (set_at banks n bank m).vcount b ≡ (banks m).vcount b
set_at-vcount banks n bank m b e = elim (Bool-cases (m == n)) [
  | inl here ↦
      rw here (ap (λ (f : ℕ → ℕ). f b) e ∙ ap (λ k. (banks k).vcount b) (sym ((==_iff m n).0 here)))
  | inr there ↦ rw there refl
]

pub log_closed-count :
    (ty : WriteType) (n block : ℕ) (s : Ftl) (m b : ℕ)
    → count_of m b (log_closed ty n block s) ≡ count_of m b s
log_closed-count ty n block s m b = elim (Bool-cases (is_closed ty block (s.core.banks n))) [
  | inl closed ↦
      rw closed (set_at-vcount s.core.banks n (log_to_data ty block (s.core.banks n)) m b refl)
  | inr opened ↦ rw opened refl
]

pub log_closed-same :
    (ty : WriteType) (n block : ℕ) (s : Ftl)
    → ((log_closed ty n block s).map_of ≡ s.map_of)
      × ((log_closed ty n block s).valid ≡ s.valid)
      × ((log_closed ty n block s).pages ≡ s.pages)
      × ((log_closed ty n block s).bufs ≡ s.bufs)
log_closed-same ty n block s = elim (Bool-cases (is_closed ty block (s.core.banks n))) [
  | inl closed ↦ rw closed (refl, refl, refl, refl)
  | inr opened ↦ rw opened (refl, refl, refl, refl)
]

pub set_pages-gc :
    (n : ℕ) (p : PageBank) (s : Ftl) (m : ℕ)
    → p.gc ≡ (s.pages n).gc
    → ((set_pages n p s).pages m).gc.cur_vt_vpn ≡ (s.pages m).gc.cur_vt_vpn
set_pages-gc n p s m e = elim (Bool-cases (m == n)) [
  | inl here ↦
      rw here
        (ap (λ g. g.cur_vt_vpn) e ∙ ap (λ k. (s.pages k).gc.cur_vt_vpn) (sym ((==_iff m n).0 here)))
  | inr there ↦ rw there refl
]

-- What a change of the blocks and of the remaps that they wait for leaves alone.
pub record Kept (s t : Ftl) : Type 0 where
  pub map_of : t.map_of ≡ s.map_of
  pub bufs : t.bufs ≡ s.bufs
  pub valid : t.valid ≡ s.valid
  pub cursor : t.core.cur_write_bank ≡ s.core.cur_write_bank
  pub counts : (n b : ℕ) → count_of n b t ≡ count_of n b s
  pub gc : (n : ℕ) → (t.pages n).gc.cur_vt_vpn ≡ (s.pages n).gc.cur_vt_vpn

pub set_pages-Kept :
    (n : ℕ) (p : PageBank) (s : Ftl) → p.gc ≡ (s.pages n).gc → Kept s (set_pages n p s)
set_pages-Kept n p s e = record {
  map_of = refl;
  bufs = refl;
  valid = refl;
  cursor = refl;
  counts = λ m b. refl;
  gc = λ m. set_pages-gc n p s m e;
}

log_closed-cursor :
    (ty : WriteType) (n block : ℕ) (s : Ftl)
    → (log_closed ty n block s).core.cur_write_bank ≡ s.core.cur_write_bank
log_closed-cursor ty n block s = elim (Bool-cases (is_closed ty block (s.core.banks n))) [
  | inl closed ↦ rw closed refl
  | inr opened ↦ rw opened refl
]

pub log_closed-Kept : (ty : WriteType) (n block : ℕ) (s : Ftl) → Kept s (log_closed ty n block s)
log_closed-Kept ty n block s =
    let same = log_closed-same ty n block s in
    record {
      map_of = same.0;
      bufs = same.3;
      valid = same.1;
      cursor = log_closed-cursor ty n block s;
      counts = λ m b. log_closed-count ty n block s m b;
      gc = λ m. ap (λ (f : ℕ → PageBank). (f m).gc.cur_vt_vpn) same.2;
    }

pub Kept-trans : (s t u : Ftl) → Kept s t → Kept t u → Kept s u
Kept-trans s t u a b = record {
  map_of = b.map_of ∙ a.map_of;
  bufs = b.bufs ∙ a.bufs;
  valid = b.valid ∙ a.valid;
  cursor = b.cursor ∙ a.cursor;
  counts = λ m c. b.counts m c ∙ a.counts m c;
  gc = λ m. b.gc m ∙ a.gc m;
}

pub Kept-refl : (s : Ftl) → Kept s s
Kept-refl s = record {
  map_of = refl;
  bufs = refl;
  valid = refl;
  cursor = refl;
  counts = λ m b. refl;
  gc = λ m. refl;
}
