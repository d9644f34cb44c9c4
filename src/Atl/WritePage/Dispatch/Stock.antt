-- ===== src/Atl/WritePage/Dispatch/Stock.antt =====
-- The numbers of the headers of a core, free or in use, in remap_handler, do_remap and __do_remap of
-- ATLWrapper.cpp.
use shrd_simulator.Base.{
  ℕ, zero, suc, ◌+◌, ◌-◌, ◌/◌, ◌≡◌, inl, inr, refl, ◌∙◌, false, Option, none, some, List, [], ◌∷◌,
  ◌++◌, arith, ◌==◌, leb, ltb, Bool-cases, length, length-append,
}
use shrd_simulator.Config.{num_ftl_core, rw_log_start_in_page, jn_log_start_in_page}
use shrd_simulator.Atl.Vpn.{WriteType, shrd_sw, shrd_rw, shrd_jn}
use shrd_simulator.Atl.Headers.Stock.{twrites}
use shrd_simulator.Atl.Ftl.{◌>>=◌, Ftl}
use shrd_simulator.Atl.Remap.{
  RemapEntry, Remaps, remap_handler, do_one_remap, remap_head, remap_list, remap_loop, drop_head,
  do_remap, repeat_remap, take_rw, take_jn, is_empty, remap_age, twrite_age, epoch_number,
  twrite_list, stamped,
}

abbrev pub remaps : Remaps → ℕ
remaps r = r.free_remaps + length r.rw_remaps + length r.jn_remaps

-- Neither stock has changed.
pub record Stock (r u : Remaps) : Type 0 where
  pub twrites : twrites u.headers ≡ twrites r.headers
  pub remaps : remaps u ≡ remaps r

pub Stock-trans : (r s t : Remaps) → Stock r s → Stock s t → Stock r t
Stock-trans r s t p q = record { twrites = q.twrites ∙ p.twrites; remaps = q.remaps ∙ p.remaps }

abbrev pub Stocked : Remaps → Option Remaps → Type 0
Stocked r none = Unit
Stocked r (some u) = Stock r u

later : (r s : Remaps) → Stock r s → (x : Option Remaps) → Stocked s x → Stocked r x
later r s p none q = tt
later r s p (some u) q = Stock-trans r s u p q

drop_head-Stocked :
    (ty : WriteType) (e : RemapEntry) (es : List RemapEntry) (r : Remaps) (x : Option Ftl)
    → remap_list ty r ≡ e ∷ es
    → Stocked r (x >>= λ s. some (drop_head ty es s r))
drop_head-Stocked ty e es r none at = tt
drop_head-Stocked shrd_rw e es r (some s) at = record {
  twrites = refl;
  remaps = rw at (omega arith);
}
drop_head-Stocked shrd_sw e es r (some s) at = record {
  twrites = refl;
  remaps = rw at (omega arith);
}
drop_head-Stocked shrd_jn e es r (some s) at = record {
  twrites = refl;
  remaps = rw at (omega arith);
}

do_one_remap-Stocked : (core : ℕ) (ty : WriteType) (r : Remaps) → Stocked r (do_one_remap core ty r)
unfolding do_one_remap
do_one_remap-Stocked core ty r = from_list (remap_list ty r) refl
  where
    from_list : (es : List RemapEntry) → remap_list ty r ≡ es → Stocked r (remap_head core ty es r)
    from_list [] at = tt
    from_list (e ∷ es) at =
        drop_head-Stocked ty e es r (remap_loop e.remap_count core ty e r.ftl) at

repeat_remap-Stocked :
    (n core : ℕ) (ty : WriteType) (r : Remaps) → Stocked r (repeat_remap n core ty r)
unfolding repeat_remap
repeat_remap-Stocked zero core ty r = record { twrites = refl; remaps = refl }
repeat_remap-Stocked (suc n) core ty r =
    step (do_one_remap core ty r) (do_one_remap-Stocked core ty r)
      (λ t. repeat_remap-Stocked n core ty t)
  where
    step :
        (x : Option Remaps)
        → Stocked r x
        → ((t : Remaps) → Stocked t (repeat_remap n core ty t))
        → Stocked r (elim x [ none ↦ none | some t ↦ repeat_remap n core ty t ])
    step none p rest = tt
    step (some t) p rest = later r t p (repeat_remap n core ty t) (rest t)

do_remap-Stocked : (core : ℕ) (ty : WriteType) (r : Remaps) → Stocked r (do_remap core ty r)
unfolding do_remap
do_remap-Stocked core ty r =
    let now = epoch_number ty r in
    let remap_size = remap_age now (remap_list ty r) in
    let twrite_size = twrite_age now (twrite_list ty r) in
    elim (Bool-cases (is_empty (remap_list ty r))) [
      | inl empty ↦ rw empty (record { twrites = refl; remaps = refl })
      | inr waits ↦ elim (Bool-cases (ltb remap_size twrite_size)) [
        | inl early ↦ rw (waits, early) (record { twrites = refl; remaps = refl })
        | inr old ↦ rw (waits, old) (repeat_remap-Stocked (remap_size - twrite_size) core ty r)
      ]
    ]

taken :
    (free : ℕ) (es fs : List RemapEntry) (e : RemapEntry)
    → (free == 0) ≡ false
    → ((free - 1) + length (es ++ e ∷ []) + length fs ≡ free + length es + length fs)
      × ((free - 1) + length fs + length (es ++ e ∷ []) ≡ free + length fs + length es)
taken free es fs e h = rw (length-append es (e ∷ [])) (ground (arith, h), ground (arith, h))

pub remap_handler-Stocked :
    (core lpn : ℕ) (e : RemapEntry) (r : Remaps) → Stocked r (remap_handler core lpn e r)
unfolding remap_handler
remap_handler-Stocked core lpn e r = elim (Bool-cases (r.free_remaps == 0)) [
  | inl empty ↦ rw empty tt
  | inr free ↦ elim (Bool-cases (leb rw_log_start_in_page (e.t_addr 0 / num_ftl_core))) [
    | inl rw_log ↦
        let t = take_rw lpn e r in
        let p : Stock r t = record {
          twrites = refl;
          remaps =
              (taken r.free_remaps r.rw_remaps r.jn_remaps (stamped r.headers.rw_epoch lpn e)
                free).0;
        } in
        rw (free, rw_log)
          (later r t p (do_one_remap core shrd_rw t) (do_one_remap-Stocked core shrd_rw t))
    | inr below ↦ elim (Bool-cases (leb jn_log_start_in_page (e.t_addr 0 / num_ftl_core))) [
      | inl jn_log ↦
          let t = take_jn lpn e r in
          let p : Stock r t = record {
            twrites = refl;
            remaps =
                (taken r.free_remaps r.jn_remaps r.rw_remaps (stamped r.headers.jn_epoch lpn e)
                  free).1;
          } in
          rw (free, below, jn_log)
            (later r t p (do_remap core shrd_jn t) (do_remap-Stocked core shrd_jn t))
      | inr other ↦ elim (Bool-cases (e.remap_count == 0)) [
        | inl nothing ↦ rw (free, below, other, nothing) (record { twrites = refl; remaps = refl })
        | inr some_pairs ↦ rw (free, below, other, some_pairs) tt
      ]
    ]
  ]
]
