-- ===== src/Host/Twrite.antt =====
-- do_twrite as a whole: what it sends, and that it comes to its end.
use shrd_simulator.Base.{
  ℕ, suc, ◌+◌, ◌-◌, ◌*◌, ◌%◌, ◌≤◌, ◌<◌, ◌≡◌, refl, sym, subst, ◌∙◌, Option, inl, inr, none, some,
  List, [], ◌∷◌, ◌++◌, arith, length, ◌==◌, Bool-cases, append_assoc, append-nil,
}
use shrd_simulator.Config.{invalid_lpn}
use shrd_simulator.Host.State.{
  Host, Sent, header, data_page, log_start_in_page, cmd_start_in_page, log_size_in_page,
  twrite_entries, shrd_num_cores, max_twrite_entry, TwriteHeader, Packing, set_entry, valid_map,
}
use shrd_simulator.Host.{
  drop_entry, drop_old, enter, store_page, store, send_cmd, next_num, send_twrite, do_twrite, find,
  num_packing_of, pattern,
}
use shrd_simulator.Host.Pack.{AllPlaced, Packed, pack-Packed}
use shrd_simulator.Host.Pages.{Proper, AllProper, AllProper-append, HostInv}

-- The states that differ in the redirection map only.
pub record SameLog (h g : Host) : Type 0 where
  pub same_start : g.rw_log_start_idx ≡ h.rw_log_start_idx
  pub same_new : g.rw_log_new_idx ≡ h.rw_log_new_idx
  pub same_headers : g.header_entry_num ≡ h.header_entry_num
  pub same_remaps : g.remap_entry_num ≡ h.remap_entry_num

abbrev IsSent : Host → Host → Type 0
IsSent h g = SameLog h g × (g.sent ≡ h.sent)

SameLog-refl : {g : Host} → SameLog g g
SameLog-refl = record {
  same_start = refl;
  same_new = refl;
  same_headers = refl;
  same_remaps = refl;
}

drop_entry-IsSent : (m : Option ℕ) (o : ℕ) (h : Host) → IsSent h (drop_entry m o h)
unfolding drop_entry
drop_entry-IsSent none o h = (SameLog-refl, refl)
drop_entry-IsSent (some i) o h =
    (record { same_start = refl; same_new = refl; same_headers = refl; same_remaps = refl }, refl)

enter-IsSent : (t o : ℕ) (h : Host) → IsSent h (enter t o h)
unfolding enter drop_old
enter-IsSent t o h =
    let h' = record h {
      map_entries = set_entry h.map_entries (t - log_start_in_page) (record {
        o_addr = o;
        t_addr = t - log_start_in_page + log_start_in_page;
        flags = valid_map;
      });
    } in
    let k = drop_entry-IsSent (find o h.redirection) o h' in
    (
      record {
        same_start = k.0.same_start;
        same_new = k.0.same_new;
        same_headers = k.0.same_headers;
        same_remaps = k.0.same_remaps;
      },
      k.1,
    )

-- The pages of a twrite, in the order of their places.
pub pages : ℕ → List ℕ → List Sent
pages t [] = []
pages t (o ∷ os) = data_page t (pattern o) ∷ pages (suc t) os

store_page-Sent :
    (t o : ℕ) (h : Host)
    → SameLog h (store_page t o h)
      × ((store_page t o h).sent ≡ h.sent ++ data_page t (pattern o) ∷ [])
unfolding store_page
store_page-Sent t o h = elim (Bool-cases (o == invalid_lpn)) [
  | inl padding ↦ rw padding (same, refl)
  | inr page ↦
      let k = enter-IsSent t o (record h { sent = h.sent ++ data_page t (pattern o) ∷ [] }) in
      rw page (
        record {
          same_start = k.0.same_start;
          same_new = k.0.same_new;
          same_headers = k.0.same_headers;
          same_remaps = k.0.same_remaps;
        },
        k.1,
      )
]
  where
    same : SameLog h (record h { sent = h.sent ++ data_page t (pattern o) ∷ [] })
    same = record { same_start = refl; same_new = refl; same_headers = refl; same_remaps = refl }

SameLog-trans : {f g h : Host} → SameLog f g → SameLog g h → SameLog f h
SameLog-trans a b = record {
  same_start = b.same_start ∙ a.same_start;
  same_new = b.same_new ∙ a.same_new;
  same_headers = b.same_headers ∙ a.same_headers;
  same_remaps = b.same_remaps ∙ a.same_remaps;
}

pub store-Sent :
    (t : ℕ) (os : List ℕ) (h : Host)
    → SameLog h (store t os h) × ((store t os h).sent ≡ h.sent ++ pages t os)
unfolding store pages
store-Sent t [] h = (SameLog-refl, rw append-nil)
store-Sent t (o ∷ os) h =
    let k = store_page-Sent t o h in
    let r = store-Sent (suc t) os (store_page t o h) in
    (SameLog-trans k.0 r.0, r.1 ∙ (rw (k.1, append_assoc)))

pages-AllProper :
    (t : ℕ) (os : List ℕ)
    → log_start_in_page ≤ t
    → t + length os ≤ cmd_start_in_page
    → AllProper (pages t os)
unfolding pages
pages-AllProper t [] h k = tt
pages-AllProper t (o ∷ os) h k =
    ((h, omega arith), pages-AllProper (suc t) os (omega arith) (omega arith))

AllPlaced-even : (a b : ℕ) (os : List ℕ) → a % 2 ≡ b % 2 → AllPlaced a os → AllPlaced b os
AllPlaced-even a b [] e h = tt
AllPlaced-even a b (o ∷ os) e h =
    (ground (arith, h.0), AllPlaced-even (suc a) (suc b) os (omega arith) h.1)

pub next_num-lt : (n : ℕ) → n < twrite_entries → next_num n < twrite_entries
unfolding next_num
next_num-lt n h = ground arith

send_twrite-HostInv :
    (max num : ℕ) (p : Packing) (h : Host)
    → HostInv h
    → Packed h.rw_log_new_idx max num p
    → num < max_twrite_entry
    → h.rw_log_new_idx + max ≤ log_size_in_page
    → HostInv (send_twrite (h.rw_log_new_idx + log_start_in_page) p h)
unfolding send_twrite send_cmd
send_twrite-HostInv max num p h i k small room =
    let t = h.rw_log_new_idx + log_start_in_page in
    let hdr : TwriteHeader = record {
      t_addr_start = t;
      io_count = p.io_count;
      o_addr = p.o_addr;
    } in
    let lpn = h.header_entry_num * shrd_num_cores + cmd_start_in_page in
    let g = record h {
      sent = h.sent ++ header lpn hdr ∷ header (lpn + 1) hdr ∷ [];
      header_entry_num = next_num h.header_entry_num;
    } in
    let (same, sent) = store-Sent t p.o_addr g in
    let placed = AllPlaced-even h.rw_log_new_idx t p.o_addr (omega arith) k.placed in
    let proper : (a : ℕ)
        → cmd_start_in_page ≤ a
        → a < cmd_start_in_page + twrite_entries * shrd_num_cores
        → Proper (header a hdr) =
      λ a low high. (
        low,
        high,
        k.count,
        omega (arith, k.count, k.pages, k.in_num),
        omega arith,
        omega (arith, k.count, k.pages, k.in_max),
        placed,
      ) in
    record {
      start = omega (arith, same.same_start, i.start);
      new = omega (arith, k.place, k.pages, k.in_max);
      headers = omega (arith, same.same_headers, next_num-lt h.header_entry_num i.headers);
      remaps = omega (arith, same.same_remaps, i.remaps);
      proper = subst AllProper (sym sent) (
          AllProper-append g.sent (pages t p.o_addr)
            (AllProper-append h.sent (header lpn hdr ∷ header (lpn + 1) hdr ∷ []) i.proper (
              proper lpn (omega arith) (omega (arith, i.headers)),
              (proper (lpn + 1) (omega arith) (omega (arith, i.headers)), tt),
            ))
            (pages-AllProper t p.o_addr (omega arith) (omega (arith, k.pages, k.in_max))));
    }

-- A twrite of bounded size, from a state whose indices and pages are in bounds, comes to its end,
-- and keeps them in bounds.
pub do_twrite-HostInv :
    (rand : ℕ → ℕ) (max : ℕ) (h : Host)
    → HostInv h
    → h.rw_log_new_idx + max ≤ log_size_in_page
    → (h' : Host) × (do_twrite rand max h ≡ some h') × HostInv h'
unfolding do_twrite
do_twrite-HostInv rand max h i room =
    let num = num_packing_of rand in
    let start : Packing = record {
      log_addr = h.rw_log_new_idx;
      req_pages = 0;
      padding = 0;
      io_count = 0;
      o_addr = [];
    } in
    let (p, e, k) =
      pack-Packed rand h.rw_log_new_idx max num (omega arith) (max_twrite_entry + 2) 0 start
        (record {
          pages = refl;
          count = refl;
          place = omega arith;
          in_max = omega arith;
          in_num = omega arith;
          placed = tt;
        })
        (omega arith) in
    (
      send_twrite (h.rw_log_new_idx + log_start_in_page) p h,
      rw (e, do_twrite) refl,
      send_twrite-HostInv max num p h i k (omega arith) room,
    )
