-- ===== src/Atl/WritePage/Dispatch/Halves.antt =====
-- The headers and the halves of a host's buffer in RSP_WritePage of ATLWrapper.cpp.
use shrd_simulator.Base.{
  ℕ, suc, ◌+◌, ◌≤◌, ◌≡◌, inl, inr, refl, ap, ◌∙◌, Bool, true, false, Option, none, some, List, [],
  ◌∷◌, arith, leb, ltb, if◌then◌else◌, Bool-cases, length,
}
use shrd_simulator.Config.{
  invalid_lpn, rw_log_start_in_page, jn_log_start_in_page, twrite_cmd_in_page, remap_cmd_in_page,
  confirm_read_cmd_in_page,
}
use shrd_simulator.Atl.Vpn.{WriteType, shrd_sw, shrd_rw, shrd_jn}
use shrd_simulator.Atl.Buffer.{Memory}
use shrd_simulator.Atl.Headers.{
  Headers, TwriteEntry, covers, find_twrite_o_lpn, twrite_header_handler,
}
use shrd_simulator.Atl.Headers.Stock.{
  twrites, HeadersKept, FoundKept, twrite_header_handler-HeadersKept, find_twrite_o_lpn-FoundKept,
}
use shrd_simulator.Atl.Ftl.{Ftl}
use shrd_simulator.Atl.Remap.{Remaps, remap_handler}
use shrd_simulator.Atl.WritePage.{Issued, Outcome, done, write_page}
use shrd_simulator.Atl.WritePage.Old.{ModifyRead}
use shrd_simulator.Atl.WritePage.Dispatch.Stock.{Stock, Stock-trans, Stocked, remap_handler-Stocked}
use shrd_simulator.Atl.WritePage.Dispatch.{
  PageRequest, Handling, handled, write_half, incremental_gc, after_write, closed, without,
  expect_less, found_less, log_list, set_headers, set_ftl, headed, twrite_headed, half_write,
  log_write, needs_gc, page_of,
}

-- What a step of RSP_WritePage keeps, after `n` unused halves.
abbrev pub Handled : (n : ℕ) → Remaps → Handling → Type 0
Handled n r (handled unused u issued) = (unused ≤ n + 1) × Stock r u
Handled n r Handling.collects = Unit
Handled n r Handling.fails = Unit

incremental_gc-Handled :
    (n : ℕ) (r : Remaps) (x : Handling) → Handled n r x → Handled n r (incremental_gc x)
incremental_gc-Handled n r (handled unused u issued) p = elim (Bool-cases (needs_gc u.ftl)) [
  | inl gc ↦ rw gc tt
  | inr rest ↦ rw rest p
]
incremental_gc-Handled n r Handling.collects p = tt
incremental_gc-Handled n r Handling.fails p = tt

abbrev WithoutLength : List TwriteEntry → Option (Bool × List TwriteEntry) → Type 0
WithoutLength es none = Unit
WithoutLength es (some (at_end, rest)) = length es ≡ suc (length rest)

without-WithoutLength :
    (core lpn : ℕ) (es : List TwriteEntry) → WithoutLength es (without core lpn es)
unfolding without
without-WithoutLength core lpn [] = tt
without-WithoutLength core lpn (e ∷ es) = elim (Bool-cases (covers core lpn e)) [
  | inl here ↦ rw here refl
  | inr behind ↦ rw behind (after (without core lpn es) (without-WithoutLength core lpn es))
]
  where
    after :
        (x : Option (Bool × List TwriteEntry))
        → WithoutLength es x
        → WithoutLength
            (e ∷ es)
            (elim x [ none ↦ none | some (at_end, rest) ↦ some (at_end, e ∷ rest) ])
    after none p = tt
    after (some (at_end, rest)) p = ap suc p

closed-Handled :
    (ty : WriteType) (r : Remaps) (issued : List Issued) (x : Option (Bool × List TwriteEntry))
    (n unused : ℕ)
    → unused ≤ n + 1
    → WithoutLength (log_list ty r.headers) x
    → Handled n r (closed ty r issued x unused)
closed-Handled ty r issued none n unused h p = tt
closed-Handled ty r issued (some (false, rest)) n unused h p =
    (h, record { twrites = refl; remaps = refl })
closed-Handled shrd_sw r issued (some (true, rest)) n unused h p =
    (h, record { twrites = omega (arith, p); remaps = refl })
closed-Handled shrd_rw r issued (some (true, rest)) n unused h p =
    (h, record { twrites = omega (arith, p); remaps = refl })
closed-Handled shrd_jn r issued (some (true, rest)) n unused h p =
    (h, record { twrites = omega (arith, p); remaps = refl })

expect_less-length :
    (core lpn : ℕ) (es : List TwriteEntry) → length (expect_less core lpn es) ≡ length es
unfolding expect_less
expect_less-length core lpn [] = refl
expect_less-length core lpn (e ∷ es) = elim (Bool-cases (covers core lpn e)) [
  | inl here ↦ rw here refl
  | inr behind ↦ rw behind (ap suc (expect_less-length core lpn es))
]

found_less-twrites :
    (core lpn : ℕ) (ty : WriteType) (found : Bool) (h : Headers)
    → twrites (found_less core lpn ty found h) ≡ twrites h
found_less-twrites core lpn ty false h = refl
found_less-twrites core lpn shrd_sw true h = omega (arith, expect_less-length core lpn h.jn_twrites)
found_less-twrites core lpn shrd_rw true h = omega (arith, expect_less-length core lpn h.rw_twrites)
found_less-twrites core lpn shrd_jn true h = omega (arith, expect_less-length core lpn h.jn_twrites)

-- The stocks before the half are those before its step.
from_same : (n : ℕ) (r t : Remaps) (x : Handling) → Stock r t → Handled n t x → Handled n r x
from_same n r t (handled unused u issued) e (small, p) = (small, Stock-trans r t u e p)
from_same n r t Handling.collects e p = tt
from_same n r t Handling.fails e p = tt

used_half : (n : ℕ) (kept : Bool) → (if kept then n else n + 1) ≤ n + 1
used_half n kept = ground arith

closed_log :
    (core lpn : ℕ) (ty : WriteType) (r : Remaps) (n : ℕ) (kept : Bool) (s : Ftl)
    (issued : List Issued)
    → Handled n r (
        closed ty
          (set_ftl s r)
          issued
          (without core lpn (log_list ty r.headers))
          (if kept then n else n + 1))
closed_log core lpn ty r n kept s issued =
    let t = set_ftl s r in
    let unused = if kept then n else n + 1 in
    let found = without core lpn (log_list ty r.headers) in
    from_same n r t (closed ty t issued found unused) (record { twrites = refl; remaps = refl })
      (closed-Handled ty t issued found n unused (used_half n kept)
        (without-WithoutLength core lpn (log_list ty r.headers)))

after_write-Handled :
    (core lpn : ℕ) (ty : WriteType) (r : Remaps) (n : ℕ) (o : Outcome)
    → Handled n r (after_write core lpn ty r n o)
after_write-Handled core lpn ty r n Outcome.collects = tt
after_write-Handled core lpn ty r n Outcome.fails = tt
after_write-Handled core lpn shrd_sw r n (done kept s issued) =
    (used_half n kept, record { twrites = refl; remaps = refl })
after_write-Handled core lpn shrd_rw r n (done kept s issued) =
    closed_log core lpn shrd_rw r n kept s issued
after_write-Handled core lpn shrd_jn r n (done kept s issued) =
    closed_log core lpn shrd_jn r n kept s issued

headed-Handled : (n : ℕ) (r : Remaps) (x : Option Remaps) → Stocked r x → Handled n r (headed n x)
headed-Handled n r none p = tt
headed-Handled n r (some u) p = (omega arith, p)

twrite_headed-Handled :
    (n : ℕ) (r : Remaps) (x : Option Headers)
    → HeadersKept r.headers x
    → Handled n r (twrite_headed n r x)
twrite_headed-Handled n r none p = tt
twrite_headed-Handled n r (some h) p = (omega arith, record { twrites = p; remaps = refl })

module _ (load : ModifyRead → Memory → Memory) (core : ℕ) (q : PageRequest) (loop n : ℕ)
    (r : Remaps) where
  half_write-Handled :
      (ty : WriteType) (o_lpn : ℕ) (h : Headers)
      → twrites h ≡ twrites r.headers
      → Handled n r (half_write load core ty q loop o_lpn n (set_headers h r))
  half_write-Handled ty o_lpn h e =
      from_same n r (set_headers h r) (half_write load core ty q loop o_lpn n (set_headers h r))
        (record { twrites = e; remaps = refl })
        (after_write-Handled core (q.lpn loop) ty (set_headers h r) n
          (write_page load ty (page_of q loop o_lpn) r.ftl))

  log_write-Handled :
      (ty : WriteType) (x : Option (Bool × ℕ × Headers))
      → FoundKept r.headers x
      → Handled n r (log_write load core ty q loop n r x)
  log_write-Handled ty none e = tt
  log_write-Handled shrd_rw (some (found, o_lpn, h)) e =
      half_write-Handled shrd_rw o_lpn (found_less core (q.lpn loop) shrd_rw found h)
        (found_less-twrites core (q.lpn loop) shrd_rw found h ∙ e)
  log_write-Handled shrd_sw (some (true, o_lpn, h)) e =
      half_write-Handled shrd_sw o_lpn (found_less core (q.lpn loop) shrd_sw true h)
        (found_less-twrites core (q.lpn loop) shrd_sw true h ∙ e)
  log_write-Handled shrd_sw (some (false, o_lpn, h)) e = tt
  log_write-Handled shrd_jn (some (true, o_lpn, h)) e =
      half_write-Handled shrd_jn o_lpn (found_less core (q.lpn loop) shrd_jn true h)
        (found_less-twrites core (q.lpn loop) shrd_jn true h ∙ e)
  log_write-Handled shrd_jn (some (false, o_lpn, h)) e = tt

  log_half :
      (ty : WriteType)
      → Handled n r (
          incremental_gc
            (log_write load core ty q loop n r (find_twrite_o_lpn core (q.lpn loop) r.headers)))
  log_half ty =
      let found = find_twrite_o_lpn core (q.lpn loop) r.headers in
      incremental_gc-Handled n r (log_write load core ty q loop n r found)
        (log_write-Handled ty found (find_twrite_o_lpn-FoundKept core (q.lpn loop) r.headers))

  pub write_half-Handled : Handled n r (write_half load core q loop n r)
  unfolding write_half
  write_half-Handled = elim (Bool-cases (ltb (q.lpn loop) invalid_lpn)) [
    | inr nothing ↦ rw nothing (
        incremental_gc-Handled n r (handled (n + 1) r [])
          (omega arith, record { twrites = refl; remaps = refl }))
    | inl page ↦ elim (Bool-cases (ltb (q.lpn loop) jn_log_start_in_page)) [
      | inl plain ↦
          rw (page, plain)
            (incremental_gc-Handled n r (half_write load core shrd_sw q loop invalid_lpn n r)
              (half_write-Handled shrd_sw invalid_lpn r.headers refl))
      | inr special ↦ elim (Bool-cases (leb confirm_read_cmd_in_page (q.lpn loop))) [
        | inl confirm ↦ rw (page, special, confirm) tt
        | inr p ↦ elim (Bool-cases (leb remap_cmd_in_page (q.lpn loop))) [
          | inl a_remap ↦
              let x = remap_handler core (q.lpn loop) (q.half loop).remap r in
              rw (page, special, p, a_remap)
                (headed-Handled n r x
                  (remap_handler-Stocked core (q.lpn loop) (q.half loop).remap r))
          | inr p1 ↦ elim (Bool-cases (leb twrite_cmd_in_page (q.lpn loop))) [
            | inl a_twrite ↦
                let h = q.half loop in
                rw (page, special, p, p1, a_twrite)
                  (twrite_headed-Handled n r
                    (twrite_header_handler core h.addr_start h.io_count h.o_addr r.headers)
                    (twrite_header_handler-HeadersKept core h.addr_start h.io_count h.o_addr
                      r.headers))
            | inr p2 ↦ elim (Bool-cases (leb rw_log_start_in_page (q.lpn loop))) [
              | inl rw_log ↦ rw (page, special, p, p1, p2, rw_log) (log_half shrd_rw)
              | inr jn_log ↦ rw (page, special, p, p1, p2, jn_log) (log_half shrd_jn)
            ]
          ]
        ]
      ]
    ]
  ]
