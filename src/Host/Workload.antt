-- ===== src/Host/Workload.antt =====
-- HOST_gen_random_workload, over and over.
use shrd_simulator.Base.{ℕ, zero, suc, ◌+◌, ◌≤◌, ◌≡◌, refl, ◌⊎◌, some, arith}
use shrd_simulator.Host.State.{Host, log_size_in_page}
use shrd_simulator.Host.{
  Plan, twrite, needs_remap, plan, gen_random_workload, do_remap, host_init, workload,
}
use shrd_simulator.Host.Pages.{HostInv}
use shrd_simulator.Host.Twrite.{do_twrite-HostInv}
use shrd_simulator.Host.Gather.{do_remap-HostInv}

-- A plan that ends within the log, and at the start index where this one is behind the new index.
abbrev Fits : Host → Plan → Type 0
Fits h (twrite max new_idx) =
    (new_idx + max ≤ log_size_in_page)
    × ((h.rw_log_start_idx ≤ new_idx) ⊎ (new_idx + max ≤ h.rw_log_start_idx))
Fits h needs_remap = Unit {0}

-- In a log whose indices are in bounds, the twrite that HOST_gen_random_workload plans ends within
-- the log, and at the start index at the latest where this one is behind the new index.
plan-Fits :
    (h : Host)
    → h.rw_log_start_idx ≤ log_size_in_page
    → h.rw_log_new_idx ≤ log_size_in_page
    → Fits h (plan h)
unfolding plan
plan-Fits h s n = ground arith

carry_out-HostInv :
    (rand : ℕ → ℕ) (h : Host) (p : Plan)
    → HostInv h
    → plan h ≡ p
    → Fits h p
    → (h' : Host) × (gen_random_workload rand h ≡ some h') × HostInv h'
unfolding gen_random_workload
carry_out-HostInv rand h (twrite max new_idx) i e fits =
    let (h', run, inv) =
      do_twrite-HostInv rand max (record h { rw_log_new_idx = new_idx })
        (record {
          start = i.start;
          new = omega (arith, fits.0);
          headers = i.headers;
          remaps = i.remaps;
          proper = i.proper;
        })
        fits.0 in
    (h', rw (e, gen_random_workload) run, inv)
carry_out-HostInv rand h needs_remap i e fits =
    ((do_remap h).1, rw (e, gen_random_workload) refl, do_remap-HostInv h i)

-- HOST_gen_random_workload comes to its end from a state whose indices and pages are in bounds, and
-- keeps them so: every twrite header has at most 128 pages in the log, each at a place of its own
-- core, every remap command has at most 511 pairs, and the commands lie in their ranges.
pub gen_random_workload-HostInv :
    (rand : ℕ → ℕ) (h : Host)
    → HostInv h
    → (h' : Host) × (gen_random_workload rand h ≡ some h') × HostInv h'
gen_random_workload-HostInv rand h i =
    carry_out-HostInv rand h (plan h) i refl (plan-Fits h i.start i.new)

-- The state of the constructor has its indices and pages in bounds.
pub host_init-HostInv : HostInv host_init
unfolding host_init
host_init-HostInv = record {
  start = omega arith;
  new = omega arith;
  headers = omega arith;
  remaps = omega arith;
  proper = tt;
}

-- Any number of calls of HOST_gen_random_workload from the constructor on, whatever `rand` gives,
-- comes to its end, with the indices of the log and of the commands in bounds, and with all pages
-- sent in bounds: every twrite header has at most 128 pages in the log, each at a place of its own
-- core, every remap command has at most 511 pairs, and the commands lie in their ranges.
pub workload-HostInv :
    (rand : ℕ → ℕ → ℕ) (n : ℕ) → (h : Host) × (workload rand n host_init ≡ some h) × HostInv h
unfolding workload
workload-HostInv rand zero = (host_init, refl, host_init-HostInv)
workload-HostInv rand (suc n) =
    let (h, e, i) = workload-HostInv rand n in
    let (h', e', i') = gen_random_workload-HostInv (rand n) h i in (h', rw e e', i')
