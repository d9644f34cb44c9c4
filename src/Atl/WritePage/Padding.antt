-- ===== src/Atl/WritePage/Padding.antt =====
-- A page that leaves its old place and gets none (the padding in write_page of ATLWrapper.cpp).
use shrd_simulator.Base.{
  ℕ, ◌≤◌, ◌<◌, ◌≡◌, inl, inr, refl, sym, ap, subst, ◌∙◌, true, false, arith, ◌==◌, if◌then◌else◌,
  Bool-cases, ==_iff,
}
use shrd_simulator.Atl.Cache.State.{set_at, vc_max, write_buffer_bit}
use shrd_simulator.Atl.Buffer.{WriteBuf}
use shrd_simulator.Atl.Ftl.{Ftl, with_entry, code_buf, code_slot}
use shrd_simulator.Atl.Ftl.Located.{MapOk, Located}
use shrd_simulator.Atl.Remap.Moved.{distinct_places}
use shrd_simulator.Atl.WritePage.Place.{Vacant, SlotsUsed}
use shrd_simulator.Atl.WritePage.Slot.{Placed}

unmapped-only :
    (f : ℕ → ℕ) (p l m : ℕ)
    → (f l ≡ f m → (f l == vc_max) ≡ false → l ≡ m)
    → (if l == p then vc_max else f l) ≡ (if m == p then vc_max else f m)
    → ((if l == p then vc_max else f l) == vc_max) ≡ false
    → l ≡ m
unmapped-only f p l m only same named = ground arith

module _ (lpn : ℕ) (s t : Ftl) (ok : MapOk s) (slots : SlotsUsed s)
    (v : Vacant (s.map_of lpn) s t) where
  abbrev u : Ftl
  u = with_entry lpn vc_max t

  map_after : (l : ℕ) → u.map_of l ≡ (if l == lpn then vc_max else s.map_of l)
  map_after l = ap (λ (f : ℕ → ℕ). set_at f lpn vc_max l) v.map_of

  stays : (l : ℕ) → (l == lpn) ≡ false → Located s l (s.map_of l) → Located u l (s.map_of l)
  stays l other (inl p) = inl p
  stays l other (inr (inl p)) = inr (
      inl (
        p.0,
        p.1,
        ap (λ (f : ℕ → WriteBuf). (f (code_buf (s.map_of l))).req_lpn (code_slot (s.map_of l)))
              v.bufs
            ∙ p.2,
      ))
  stays l other (inr (inr p)) =
      let named : (s.map_of l == vc_max) ≡ false = ground (arith, p.0) in
      inr (inr (p.0, v.valid (s.map_of l) (distinct_places s l lpn ok named other) ∙ p.1))

  unmapped-Located : (l : ℕ) → Located u l (u.map_of l)
  unmapped-Located l = elim (Bool-cases (l == lpn)) [
    | inl here ↦ inl (map_after l ∙ rw here refl)
    | inr other ↦
        subst (λ k. Located u l k) (sym (map_after l ∙ rw other refl))
          (stays l other (ok.located l))
  ]

  unmapped-SlotsUsed : SlotsUsed u
  unmapped-SlotsUsed l from below = elim (Bool-cases (l == lpn)) [
    | inl here ↦
        let nowhere : u.map_of l ≡ vc_max = map_after l ∙ rw here refl in
        absurd (omega (arith, subst (λ k. k < vc_max) nowhere below))
    | inr other ↦
        let at : u.map_of l ≡ s.map_of l = map_after l ∙ rw other refl in
        subst (λ k. (u.bufs (code_buf k)).bits (code_slot k) ≡ true) (sym at)
          (ap (λ (f : ℕ → WriteBuf). (f (code_buf (s.map_of l))).bits (code_slot (s.map_of l)))
              v.bufs
            ∙ slots l (subst (λ k. write_buffer_bit ≤ k) at from)
                (subst (λ k. k < vc_max) at below))
  ]

  pub padding-Placed : Placed lpn vc_max s u
  padding-Placed = record {
    here = rw ((==_iff lpn lpn).1 refl) refl;
    others = λ l ne. map_after l ∙ rw ne refl;
    gone = v.gone;
    ok = record {
      located = unmapped-Located;
      only = λ l m same named.
          unmapped-only s.map_of lpn l m (ok.only l m) (sym (map_after l) ∙ same ∙ map_after m)
            (ap (λ k. k == vc_max) (sym (map_after l)) ∙ named);
      counts = v.counts;
    };
    used = unmapped-SlotsUsed;
    idle = v.idle;
  }
