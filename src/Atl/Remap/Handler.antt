-- ===== src/Atl/Remap/Handler.antt =====
-- remap_handler and do_remap of ATLWrapper.cpp: a header of random writes is remapped when it comes,
-- and the headers of the journal wait for the twrites of their epoch.
use shrd_simulator.Base.{
  ℕ, ◌-◌, ◌/◌, ◌≤◌, ◌<◌, ◌≡◌, refl, ap, subst, ◌∙◌, true, false, Option, some, List, [], ◌∷◌, ◌++◌,
  arith, ◌==◌, leb,
}
use shrd_simulator.Config.{rw_log_start_in_page}
use shrd_simulator.Atl.Vpn.{WriteType, shrd_rw}
use shrd_simulator.Atl.Ftl.{◌>>=◌, Ftl}
use shrd_simulator.Atl.Ftl.Counts.{GcIdle}
use shrd_simulator.Atl.Ftl.Located.{MapOk}
use shrd_simulator.Atl.Remap.{
  RemapEntry, Remaps, stamped, take_rw, drop_head, remap_head, remap_list, do_one_remap,
  remap_handler, next_epoch,
}
use shrd_simulator.Atl.Remap.Page.{IsLog}
use shrd_simulator.Atl.Remap.Share.{PairsApart, LogsMapped, LogsReady, Shared, remap_loop-Shared}
use shrd_simulator.Atl.Remap.Ready.{Used}

-- The header `e` at the head of a list is remapped and freed.
pub one_remap :
    (core : ℕ) (ty : WriteType) (e : RemapEntry) (es : List RemapEntry) (r : Remaps)
    → IsLog ty
    → PairsApart core e
    → MapOk r.ftl
    → GcIdle r.ftl
    → LogsMapped core 0 e r.ftl
    → LogsReady ty core 0 e.remap_count e r.ftl
    → remap_list ty r ≡ e ∷ es
    → (u : Ftl) × (do_one_remap core ty r ≡ some (drop_head ty es u r))
      × Shared core 0 e r.ftl u
      × Used ty e.remap_count r.ftl u
unfolding do_one_remap
one_remap core ty e es r is_log pairs ok idle mapped ready at =
    let whole : e.remap_count - e.remap_count ≡ 0 = omega arith in
    let (u, done, shared, used) =
      remap_loop-Shared core ty e is_log pairs e.remap_count r.ftl (omega arith) ok idle
        (λ i p q a. mapped i (omega arith) q a) (λ i p q a. ready i (omega arith) q a) in
    (
      u,
      ap (λ l. remap_head core ty l r) at
          ∙ ap (λ (o : Option Ftl). o >>= λ s. some (drop_head ty es s r)) done,
      subst (λ k. Shared core k e r.ftl u) whole shared,
      used,
    )

module _ (core lpn : ℕ) (e : RemapEntry) (r : Remaps) (pairs : PairsApart core e) (ok : MapOk r.ftl)
    (idle : GcIdle r.ftl) (mapped : LogsMapped core 0 e r.ftl)
    (ready : LogsReady shrd_rw core 0 e.remap_count e r.ftl)
    (log : rw_log_start_in_page ≤ e.t_addr 0 / 2) (free : 0 < r.free_remaps)
    (waiting : r.rw_remaps ≡ []) where
  abbrev stamp : RemapEntry
  stamp = stamped r.headers.rw_epoch lpn e

  -- Where no header of random writes waits and one is free, a header of a remap of random writes whose
  -- pages are of the core, are different and have places in the log, in the write buffers or in blocks
  -- that are in the list of the log and wait for as many remaps as the header has, is remapped when it
  -- comes: its homes get the places of its pages of the log, which have none then, no other page moves,
  -- the pages stay in order, none waits afterwards, and the epoch is the next one.
  pub remap_handler-Shared :
      (v : Remaps) × (remap_handler core lpn e r ≡ some v)
      × Shared core 0 e r.ftl v.ftl
      × (v.rw_remaps ≡ [])
      × (v.free_remaps ≡ r.free_remaps)
      × (v.headers.rw_epoch ≡ next_epoch r.headers.rw_epoch)
  unfolding remap_handler
  remap_handler-Shared =
      let s_pairs : PairsApart core stamp = record {
        count = pairs.count;
        pages = pairs.pages;
        logs = pairs.logs;
        homes = pairs.homes;
        kinds = pairs.kinds;
      } in
      let at : r.rw_remaps ++ stamp ∷ [] ≡ stamp ∷ [] =
        ap (λ (l : List RemapEntry). l ++ stamp ∷ []) waiting in
      let (u, done, h, used) =
        one_remap core shrd_rw stamp [] (take_rw lpn e r) refl s_pairs ok idle mapped ready at in
      let some_free : (r.free_remaps == 0) ≡ false = ground arith in
      let in_log : leb rw_log_start_in_page (e.t_addr 0 / 2) ≡ true = ground arith in
      (
        drop_head shrd_rw [] u (take_rw lpn e r),
        rw (some_free, in_log) done,
        record { homes = h.homes; logs = h.logs; others = h.others; ok = h.ok; idle = h.idle },
        refl,
        omega arith,
        refl,
      )
