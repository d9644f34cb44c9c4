-- ===== src/Atl/Headers/Stock.antt =====
-- The number of the headers of twrites, free or in use, in ATLWrapper.cpp.
use shrd_simulator.Base.{
  ℕ, suc, ◌+◌, ◌-◌, ◌/◌, ◌≡◌, inl, inr, refl, ap, Bool, true, false, Option, none, some, List, [],
  ◌∷◌, ◌++◌, arith, ◌==◌, leb, ltb, Bool-cases, length, length-append,
}
use shrd_simulator.Config.{num_ftl_core, rw_log_start_in_page, jn_log_start_in_page}
use shrd_simulator.Atl.Headers.{
  TwriteEntry, Headers, place, covers, find_twrite_entry, complete_write, find_in,
  find_twrite_o_lpn, twrite_header_handler, remained_of, new_entry,
}

abbrev pub twrites : Headers → ℕ
twrites h = h.free_twrites + length h.rw_twrites + length h.jn_twrites

abbrev pub HeadersKept : Headers → Option Headers → Type 0
HeadersKept h none = Unit
HeadersKept h (some h') = twrites h' ≡ twrites h

abbrev pub FoundKept : Headers → Option (Bool × ℕ × Headers) → Type 0
FoundKept h none = Unit
FoundKept h (some (found, o_lpn, h')) = twrites h' ≡ twrites h

one_more :
    (free : ℕ) (es fs : List TwriteEntry) (e : TwriteEntry)
    → (free == 0) ≡ false
    → ((free - 1) + length (es ++ e ∷ []) + length fs ≡ free + length es + length fs)
      × ((free - 1) + length fs + length (es ++ e ∷ []) ≡ free + length fs + length es)
one_more free es fs e h = rw (length-append es (e ∷ [])) (ground (arith, h), ground (arith, h))

pub twrite_header_handler-HeadersKept :
    (core addr_start io_count : ℕ) (o_addr : ℕ → ℕ) (h : Headers)
    → HeadersKept h (twrite_header_handler core addr_start io_count o_addr h)
unfolding twrite_header_handler
twrite_header_handler-HeadersKept core a c o h = elim (Bool-cases (h.free_twrites == 0)) [
  | inl empty ↦ rw empty tt
  | inr some_free ↦ elim (Bool-cases (remained_of core a c == 0)) [
    | inl other_core ↦ rw (some_free, other_core) refl
    | inr mine ↦ elim (Bool-cases (leb rw_log_start_in_page (a / num_ftl_core))) [
      | inl rw_log ↦
          rw (some_free, mine, rw_log)
            (one_more h.free_twrites h.rw_twrites h.jn_twrites (new_entry core a c o h.rw_epoch)
              some_free).0
      | inr below ↦ elim (Bool-cases (leb jn_log_start_in_page (a / num_ftl_core))) [
        | inl jn_log ↦
            rw (some_free, mine, below, jn_log)
              (one_more h.free_twrites h.jn_twrites h.rw_twrites (new_entry core a c o h.jn_epoch)
                some_free).1
        | inr other ↦ rw (some_free, mine, below, other) tt
      ]
    ]
  ]
]

complete_write-length :
    (core lpn : ℕ) (es : List TwriteEntry) → length (complete_write core lpn es) ≡ length es
unfolding complete_write
complete_write-length core lpn [] = refl
complete_write-length core lpn (e ∷ es) = elim (Bool-cases (covers core lpn e)) [
  | inl here ↦ rw here refl
  | inr later ↦ rw later (ap suc (complete_write-length core lpn es))
]

abbrev FoundLength : List TwriteEntry → Option (Bool × ℕ × List TwriteEntry) → Type 0
FoundLength es none = Unit
FoundLength es (some (found, o_lpn, fs)) = length fs ≡ length es

found-FoundLength :
    (core lpn : ℕ) (es : List TwriteEntry) (x : Option TwriteEntry)
    → find_twrite_entry core lpn es ≡ x
    → FoundLength es (find_in core lpn es)
unfolding find_in
found-FoundLength core lpn es none eq = rw (eq, FoundLength, find_in) refl
found-FoundLength core lpn es (some e) eq = elim (Bool-cases (ltb (place core lpn) e.addr_start)) [
  | inl before ↦ rw (eq, before, FoundLength, find_in) tt
  | inr after ↦ elim (Bool-cases (e.remained == 0)) [
    | inl at_end ↦ rw (eq, after, at_end, FoundLength, find_in) tt
    | inr waits ↦ rw (eq, after, waits, FoundLength, find_in) (complete_write-length core lpn es)
  ]
]

find_in-FoundLength : (core lpn : ℕ) (es : List TwriteEntry) → FoundLength es (find_in core lpn es)
find_in-FoundLength core lpn es = found-FoundLength core lpn es (find_twrite_entry core lpn es) refl

pub find_twrite_o_lpn-FoundKept :
    (core lpn : ℕ) (h : Headers) → FoundKept h (find_twrite_o_lpn core lpn h)
unfolding find_twrite_o_lpn
find_twrite_o_lpn-FoundKept core lpn h = elim (Bool-cases (leb rw_log_start_in_page lpn)) [
  | inl rw_log ↦
      rw rw_log
        (in_rw_list (find_in core lpn h.rw_twrites) (find_in-FoundLength core lpn h.rw_twrites))
  | inr below ↦ elim (Bool-cases (leb jn_log_start_in_page lpn)) [
    | inl jn_log ↦
        rw (below, jn_log)
          (in_jn_list (find_in core lpn h.jn_twrites) (find_in-FoundLength core lpn h.jn_twrites))
    | inr other ↦ rw (below, other) tt
  ]
]
  where
    in_rw_list :
        (x : Option (Bool × ℕ × List TwriteEntry))
        → FoundLength h.rw_twrites x
        → FoundKept h (elim x [
          | none ↦ none
          | some (found, o_lpn, es) ↦ some (found, o_lpn, record h { rw_twrites = es })
        ])
    in_rw_list none e = tt
    in_rw_list (some (found, o_lpn, es)) e = omega (arith, e)

    in_jn_list :
        (x : Option (Bool × ℕ × List TwriteEntry))
        → FoundLength h.jn_twrites x
        → FoundKept h (elim x [
          | none ↦ none
          | some (found, o_lpn, es) ↦ some (found, o_lpn, record h { jn_twrites = es })
        ])
    in_jn_list none e = tt
    in_jn_list (some (found, o_lpn, es)) e = omega (arith, e)

-- No twrite has announced the page.
pub find_in-missing :
    (core lpn : ℕ) (es : List TwriteEntry)
    → find_twrite_entry core lpn es ≡ none
    → find_in core lpn es ≡ some (false, lpn, es)
unfolding find_in
find_in-missing core lpn es missing = rw (missing, find_in) refl

pub find_twrite_o_lpn-missing :
    (core lpn : ℕ) (h : Headers)
    → leb rw_log_start_in_page lpn ≡ true
    → find_twrite_entry core lpn h.rw_twrites ≡ none
    → find_twrite_o_lpn core lpn h ≡ some (false, lpn, h)
unfolding find_twrite_o_lpn
find_twrite_o_lpn-missing core lpn h log missing =
    rw (log, find_in-missing core lpn h.rw_twrites missing, find_twrite_o_lpn) refl
