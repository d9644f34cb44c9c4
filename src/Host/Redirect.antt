-- ===== src/Host/Redirect.antt =====
-- The redirection map of the host: where the latest copy of a page is.
use shrd_simulator.Base.{
  ℕ, suc, ◌+◌, ◌-◌, ◌≡◌, ◌≢◌, refl, ap, ◌∙◌, inl, inr, Option, none, some, List, [], ◌∷◌, ◌++◌,
  arith, ◌==◌, if◌then◌else◌, Bool-cases,
}
use shrd_simulator.Config.{invalid_lpn}
use shrd_simulator.Host.State.{Host, data_page, valid_map, log_start_in_page, set_entry}
use shrd_simulator.Host.{
  find, erase, insert, pattern, drop_entry, drop_old, enter, store_page, store,
}

find-erase : (o p : ℕ) (r : List (ℕ × ℕ)) → find o (erase p r) ≡ (if p == o then none else find o r)
unfolding find erase
find-erase o p [] = ground arith
find-erase o p ((q, i) ∷ r) = ground (arith, find-erase o p r)

find-insert :
    (o p i : ℕ) (r : List (ℕ × ℕ))
    → find p r ≡ none
    → find o (insert p i r) ≡ (if p == o then some i else find o r)
unfolding find insert
find-insert o p i [] h = ground arith
find-insert o p i ((q, j) ∷ r) h = ground (arith, find-insert o p i r)

drop_entry-find :
    (m : Option ℕ) (o p : ℕ) (h : Host)
    → find p h.redirection ≡ m
    → find o (drop_entry m p h).redirection ≡ (if p == o then none else find o h.redirection)
unfolding drop_entry
drop_entry-find none o p h e = ground arith
drop_entry-find (some i) o p h e = find-erase o p h.redirection

drop_old-find :
    (o p : ℕ) (h : Host)
    → find o (drop_old p h).redirection ≡ (if p == o then none else find o h.redirection)
unfolding drop_old
drop_old-find o p h = drop_entry-find (find p h.redirection) o p h refl

enter-find :
    (t o p : ℕ) (h : Host)
    → find o (enter t p h).redirection
      ≡ (if p == o then some (t - log_start_in_page) else find o h.redirection)
unfolding enter
enter-find t o p h =
    let h' = record h {
      map_entries = set_entry h.map_entries (t - log_start_in_page) (record {
        o_addr = p;
        t_addr = t - log_start_in_page + log_start_in_page;
        flags = valid_map;
      });
    } in
    ground (
      arith,
      drop_old-find o p h',
      drop_old-find p p h',
      find-insert o p (t - log_start_in_page) (drop_old p h').redirection,
    )

store_page-find :
    (t o p : ℕ) (h : Host)
    → o ≢ invalid_lpn
    → find o (store_page t p h).redirection
      ≡ (if p == o then some (t - log_start_in_page) else find o h.redirection)
unfolding store_page
store_page-find t o p h ne = elim (Bool-cases (p == invalid_lpn)) [
  | inl padding ↦ rw padding (ground arith)
  | inr page ↦
      rw page (enter-find t o p (record h { sent = h.sent ++ data_page t (pattern p) ∷ [] }))
]

-- The place of the latest copy of a page after a twrite.
unfoldable pub latest : (t o : ℕ) → List ℕ → Option ℕ → Option ℕ
latest t o [] old = old
latest t o (p ∷ ps) old = latest (suc t) o ps (if p == o then some (t - log_start_in_page) else old)

-- After the pages of a twrite are stored, the redirection map finds a page at the last place that
-- the twrite gives to it, and where it gives none, at the place of before.
pub store-find :
    (t o : ℕ) (os : List ℕ) (h : Host)
    → o ≢ invalid_lpn
    → find o (store t os h).redirection ≡ latest t o os (find o h.redirection)
unfolding store latest
store-find t o [] h ne = refl
store-find t o (p ∷ os) h ne =
    store-find (suc t) o os (store_page t p h) ne
    ∙ ap (latest (suc t) o os) (store_page-find t o p h ne)
