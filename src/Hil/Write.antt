-- ===== src/Hil/Write.antt =====
-- HIL_WriteLPN and HIL_ReadLPN as a whole.
use shrd_simulator.Base.{
  ℕ, zero, suc, ◌+◌, ◌/◌, ◌%◌, ◌<◌, ◌≡◌, refl, ◌∙◌, ◌⊎◌, inl, inr, List, [], ◌∷◌, arith, length,
  leb, if◌then◌else◌, Bool-cases,
}
use shrd_simulator.Config.{num_ftl_core, buff_threshold, special_lpn_start}
use shrd_simulator.Hil.State.{Buff, Hil, ok, Call, Reply}
use shrd_simulator.Hil.{enqueue, recount, fetch, write_lpn}
use shrd_simulator.Hil.Count.{banks_total-update}
use shrd_simulator.Hil.Invariant.{
  Inv, AllBanked, Keeps, Ensures, Ensures-bind, Ensures-mono, requests, weights,
}
use shrd_simulator.Hil.Sends.{List-cases, weight_pos}
use shrd_simulator.Hil.Fetch.{Done, recount-Keeps, recount-requests, fetch-Keeps}
use shrd_simulator.Hil.Accept.{Accepts}
use shrd_simulator.Hil.EnqueueUrgent.{urgent_full, urgent_taken, urgent_entered-Accepts}
use shrd_simulator.Hil.EnqueueNormal.{enqueue_normal-Accepts}

pub enqueue-Accepts :
    (lpn bitmap d : ℕ) (s : Hil)
    → Inv s
    → Ensures (Accepts (lpn % num_ftl_core) (lpn / num_ftl_core) d s) (enqueue lpn bitmap d s)
unfolding enqueue
enqueue-Accepts lpn bitmap d s i =
    let core = lpn % num_ftl_core in
    let page = lpn / num_ftl_core in
    elim (Bool-cases (leb special_lpn_start page)) [
      | inl special ↦ rw special (elim (List-cases s.free) [
        | inl e ↦ rw (urgent_full core page bitmap d s e) tt
        | inr (t, ts, e) ↦
            rw (urgent_taken core page bitmap d s t ts e)
              (urgent_entered-Accepts core page bitmap d s t ts i (omega arith) (ground arith) e)
      ])
      | inr normal ↦
          rw normal (enqueue_normal-Accepts core page bitmap d s i (omega arith) (ground arith))
    ]

-- No queue holds a buffer.
pub record AllSent (s : Hil) : Type 0 where
  pub no_urgent : (core : ℕ) → core < 2 → s.urgent core ≡ []
  pub no_normal : (core : ℕ) → core < 2 → (bank : ℕ) → bank < 8 → s.banks core bank ≡ []

empty_of_weights : (bank : ℕ) (ts : List Buff) → AllBanked bank ts → weights ts ≡ 0 → ts ≡ []
unfolding weights
empty_of_weights bank [] h e = refl
empty_of_weights bank (t ∷ ts) h e = absurd (omega (arith, weight_pos t h.0.0))

pub empty_of_length : (ts : List Buff) → length ts ≡ 0 → ts ≡ []
empty_of_length [] e = refl
empty_of_length (t ∷ ts) e = absurd (omega arith)

no-requests-AllSent : (s : Hil) → Inv s → requests s ≡ 0 → AllSent s
unfolding requests weights
no-requests-AllSent s i e = record { no_urgent = urgent; no_normal = normal }
  where
    urgent : (core : ℕ) → core < 2 → s.urgent core ≡ []
    urgent zero c = empty_of_length (s.urgent 0) (omega (arith, i.urgent_count))
    urgent (suc zero) c = empty_of_length (s.urgent 1) (omega (arith, i.urgent_count))
    urgent (suc (suc core)) c = absurd (omega arith)

    normal : (core : ℕ) → core < 2 → (bank : ℕ) → bank < 8 → s.banks core bank ≡ []
    normal core c bank b =
        empty_of_weights bank (s.banks core bank) (i.banked core bank)
          (omega (arith, i.normal_count, banks_total-update weights s.banks core bank [] c b))

-- The state after HIL_WriteLPN.
pub record Written (lpn d : ℕ) (s t : Hil) : Type 0 where
  pub accepts : Accepts (lpn % num_ftl_core) (lpn / num_ftl_core) d s t
  pub count : t.on_going_request ≡ requests t
  pub batched : (requests t < buff_threshold) ⊎ AllSent t

Accepts-Keeps :
    {core lpn d : ℕ} {s t u : Hil} → Accepts core lpn d s t → Keeps t u → Accepts core lpn d s u
Accepts-Keeps a k = record {
  inv = k.inv;
  same_buffers = λ v. k.same_buffers v ∙ a.same_buffers v;
  lines = λ c n. k.same_lines c n ∙ a.lines c n;
}

-- From a state with the invariant, HIL_WriteLPN does not run out of fuel, and where it ends without
-- an `_ASSERT`: the write is behind all earlier ones of its core and queue, no other queue's order
-- has changed, no buffer is lost or doubled, `on_going_request` is the number of queued requests,
-- and these are fewer than the threshold, or all queues of both cores are empty.
pub write_lpn-Written :
    (ftl : List Call → Reply) (lpn bitmap d : ℕ) (s : Hil)
    → Inv s
    → Ensures (Written lpn d s) (write_lpn ftl lpn bitmap d s)
unfolding write_lpn
write_lpn-Written ftl lpn bitmap d s i =
    Ensures-bind (Accepts (lpn % num_ftl_core) (lpn / num_ftl_core) d s) (Written lpn d s)
      (enqueue lpn bitmap d s) _ (enqueue-Accepts lpn bitmap d s i) λ t a. send t a
  where
    send :
        (t : Hil)
        → Accepts (lpn % num_ftl_core) (lpn / num_ftl_core) d s t
        → Ensures (Written lpn d s) (
            if leb buff_threshold (recount t).on_going_request
            then fetch ftl ((recount t).on_going_request + 1) (recount t)
            else ok (recount t))
    send t a =
        let r = recount t in
        let (count, same) = recount-requests t a.inv in
        let b = Accepts-Keeps a (recount-Keeps t a.inv) in
        elim (Bool-cases (leb buff_threshold r.on_going_request)) [
          | inl full ↦ rw full (
              Ensures-mono (Done r) (Written lpn d s) (fetch ftl (r.on_going_request + 1) r)
                (λ u done. record {
                  accepts = Accepts-Keeps b done.0;
                  count = omega (arith, done.1, done.2);
                  batched = inr (no-requests-AllSent u done.0.inv done.1);
                })
                (fetch-Keeps ftl (r.on_going_request + 1) r b.inv (omega (arith, count, same))))
          | inr few ↦ rw few (record {
            accepts = b;
            count = omega (arith, count, same);
            batched = inl (ground arith);
          })
        ]
