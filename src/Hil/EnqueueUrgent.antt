-- ===== src/Hil/EnqueueUrgent.antt =====
-- The urgent writes of HIL_WriteLPN.
use shrd_simulator.Base.{
  ℕ, ◌+◌, ◌%◌, ◌≤◌, ◌<◌, ◌≡◌, refl, ap, subst, ◌∙◌, List, [], ◌∷◌, ◌++◌, arith, length,
  length-append, ◌==◌, ◌&&◌, if◌then◌else◌,
}
use shrd_simulator.Config.{u32, special_lpn_start}
use shrd_simulator.Hil.State.{Buff, Hil, ok, stuck, update}
use shrd_simulator.Hil.{fill_first, enqueue_urgent}
use shrd_simulator.Hil.Count.{held, sum_of, sum_of-snoc}
use shrd_simulator.Hil.Lines.{slot, pending, queue}
use shrd_simulator.Hil.Invariant.{Inv, AllUrgent, IsClean}
use shrd_simulator.Hil.Send.{two-update}
use shrd_simulator.Hil.Accept.{Accepts, line-grow, queue-grow, counters, entries_first}

AllUrgent-snoc :
    (ts : List Buff) (t : Buff)
    → AllUrgent ts
    → special_lpn_start ≤ t.lpn0
    → AllUrgent (ts ++ t ∷ [])
AllUrgent-snoc [] t h k = (k, tt)
AllUrgent-snoc (x ∷ ts) t h k = (h.0, AllUrgent-snoc ts t h.1 k)

module _ (core lpn bitmap d : ℕ) (s : Hil) where
  abbrev pub urgent_entered : Buff → List Buff → Hil
  urgent_entered t ts = record s {
    free = ts;
    urgent = update s.urgent core (s.urgent core ++ fill_first t lpn bitmap d ∷ []);
    on_going_urgent = (s.on_going_urgent + 1) % u32;
  }

  pub urgent_full : s.free ≡ [] → enqueue_urgent core lpn bitmap d s ≡ stuck
  unfolding enqueue_urgent
  urgent_full e = rw (e, enqueue_urgent)

  pub urgent_taken :
      (t : Buff) (ts : List Buff)
      → s.free ≡ t ∷ ts
      → enqueue_urgent core lpn bitmap d s ≡ ok (urgent_entered t ts)
  unfolding enqueue_urgent
  urgent_taken t ts e = rw (e, enqueue_urgent)

  pub urgent_entered-Accepts :
      (t : Buff) (ts : List Buff)
      → Inv s
      → core < 2
      → special_lpn_start ≤ lpn
      → s.free ≡ t ∷ ts
      → Accepts core lpn d s (urgent_entered t ts)
  unfolding held sum_of fill_first
  urgent_entered-Accepts t ts i c h e = record {
    inv = record {
      urgent_count = omega (
        arith,
        two-update length s.urgent core grown c,
        length-append (s.urgent core) (last ∷ []),
        i.urgent_count,
        (counters s i).0,
      );
      normal_count = i.normal_count;
      clean = first.2;
      banked = i.banked;
      urgents = λ c'.
          ground (arith, i.urgents c', AllUrgent-snoc (s.urgent core) last (i.urgents core) h);
      size = same (λ _. 1) ∙ i.size;
    };
    same_buffers = same;
    lines = λ c' k. line-grow c' k s (urgent_entered t ts) _ refl (grows c' k);
  }
    where
      last : Buff
      last = fill_first t lpn bitmap d

      grown : List Buff
      grown = s.urgent core ++ last ∷ []

      first : IsClean (t ∷ ts)
      first = subst IsClean e i.clean

      same : (v : ℕ → ℕ) → held v (urgent_entered t ts) ≡ held v s
      same v = omega (
        arith,
        two-update (sum_of v) s.urgent core grown c,
        ap (sum_of v) e,
        sum_of-snoc v (s.urgent core) last,
      )

      grows :
          (c' k : ℕ)
          → pending (queue (urgent_entered t ts) c' k)
            ≡ pending (queue s c' k)
              ++ (if (core == c') && (slot lpn == k) then (lpn, d) ∷ [] else [])
      grows c' k =
          queue-grow ((core == c') && (slot lpn == k)) (queue s c' k)
            (queue (urgent_entered t ts) c' k) last (ground arith)
            (entries_first t lpn bitmap d first.1)
