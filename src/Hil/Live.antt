-- ===== src/Hil/Live.antt =====
-- HIL_WriteLPN returns: the rounds of its loop, and the queueing of the write.
use shrd_simulator.Base.{
  ℕ, zero, suc, ◌+◌, ◌/◌, ◌%◌, ◌<◌, ◌≡◌, ◌≢◌, inl, inr, List, [], arith, leb, ◌==◌, if◌then◌else◌,
  Bool-cases, Option-cases,
}
use shrd_simulator.Config.{num_ftl_core, special_lpn_start, buff_threshold, num_perbank_queue}
use shrd_simulator.Hil.State.{Hil, ok, Call, Reply}
use shrd_simulator.Hil.{
  enqueue, enqueue_urgent, enqueue_normal, last_partial, recount, round, fetch, write_lpn,
  send_urgent, send_normal,
}
use shrd_simulator.Hil.Invariant.{Inv, requests}
use shrd_simulator.Hil.Sends.{Sends, List-cases, send_urgent-Sends}
use shrd_simulator.Hil.Fetch.{Less, round-Less, recount-Keeps, recount-requests}
use shrd_simulator.Hil.Write.{Written, write_lpn-Written, enqueue-Accepts}
use shrd_simulator.Hil.Accept.{Accepts}
use shrd_simulator.Hil.EnqueueUrgent.{urgent_taken}
use shrd_simulator.Hil.EnqueueNormal.{normal_first, normal_second}
use shrd_simulator.Hil.Polite.{Polite, Returns, Returns-bind, Returns-both}
use shrd_simulator.Hil.Progress.{Waits, send_urgent-Waits, send_normal-Waits}

module _ (ftl : List Call → Reply) (polite : Polite ftl) where
  recount-Waits : (s : Hil) → Waits ftl polite s → Waits ftl polite (recount s)
  unfolding recount
  recount-Waits s h = h

  round-Waits : (s : Hil) → Inv s → Waits ftl polite s → Returns (Waits ftl polite) (round ftl s)
  unfolding round
  round-Waits s i h = elim (Bool-cases (s.on_going_urgent == 0)) [
    | inl quiet ↦ rw quiet (
        Returns-bind (Waits ftl polite) (Waits ftl polite) (send_normal ftl 0 s) (send_normal ftl 1)
          (send_normal-Waits ftl polite 0 s h) (λ a k. send_normal-Waits ftl polite 1 a k))
    | inr urgent ↦ rw urgent (
        let P = λ (a : Hil). Waits ftl polite a × Sends (s.urgent 0 ≡ []) s a in
        Returns-bind P (Waits ftl polite) (send_urgent ftl 0 s) (send_urgent ftl 1)
          (Returns-both (Waits ftl polite) (Sends (s.urgent 0 ≡ []) s) (send_urgent ftl 0 s)
            (send_urgent-Waits ftl polite 0 s i h) (send_urgent-Sends ftl 0 s i (omega arith)))
          (λ a k. send_urgent-Waits ftl polite 1 a k.1.0.inv k.0))
  ]

  -- With more fuel than queued requests, the fetching loop returns.
  fetch-Waits :
      (n : ℕ) (s : Hil)
      → Inv s
      → Waits ftl polite s
      → requests s < n
      → Returns (Waits ftl polite) (fetch ftl n s)
  unfolding fetch
  fetch-Waits zero s i h lt = absurd (omega arith)
  fetch-Waits (suc n) s i h lt =
      let r = recount s in
      let (count, same) = recount-requests s i in
      let k = recount-Keeps s i in
      let waits : Waits ftl polite r = recount-Waits s h in
      elim (Bool-cases (r.on_going_request == 0)) [
        | inl done ↦ rw done waits
        | inr more ↦ rw more (
            Returns-bind (λ (a : Hil). Waits ftl polite a × Less r a) (Waits ftl polite)
              (round ftl r) (fetch ftl n)
              (Returns-both (Waits ftl polite) (Less r) (round ftl r) (round-Waits r k.inv waits)
                (round-Less ftl r k.inv (ground arith)))
              (λ a l. fetch-Waits n a l.1.0.inv l.0 (omega arith)))
      ]

  -- The queueing of a write neither calls the FTL nor lets a buffer wait for it.
  normal-Waits :
      (core lpn bitmap d : ℕ) (s : Hil)
      → Waits ftl polite s
      → s.free ≢ []
      → Returns (Waits ftl polite) (enqueue_normal core lpn bitmap d s)
  normal-Waits core lpn bitmap d s h room =
      elim (Option-cases (last_partial (s.banks core (lpn % num_perbank_queue)))) [
        | inr (y, e) ↦ rw (normal_second core lpn bitmap d s y.0 y.1 e) h
        | inl e ↦ elim (List-cases s.free) [
          | inl empty ↦ absurd (room empty)
          | inr (t, ts, f) ↦ rw (normal_first core lpn bitmap d s t ts e f) h
        ]
      ]

  urgent-Waits :
      (core lpn bitmap d : ℕ) (s : Hil)
      → Waits ftl polite s
      → s.free ≢ []
      → Returns (Waits ftl polite) (enqueue_urgent core lpn bitmap d s)
  urgent-Waits core lpn bitmap d s h room = elim (List-cases s.free) [
    | inl empty ↦ absurd (room empty)
    | inr (t, ts, f) ↦ rw (urgent_taken core lpn bitmap d s t ts f) h
  ]

  enqueue-Waits :
      (lpn bitmap d : ℕ) (s : Hil)
      → Waits ftl polite s
      → s.free ≢ []
      → Returns (Waits ftl polite) (enqueue lpn bitmap d s)
  unfolding enqueue
  enqueue-Waits lpn bitmap d s h room =
      let core = lpn % num_ftl_core in
      let page = lpn / num_ftl_core in
      elim (Bool-cases (leb special_lpn_start page)) [
        | inl special ↦ rw special (urgent-Waits core page bitmap d s h room)
        | inr normal ↦ rw normal (normal-Waits core page bitmap d s h room)
      ]

  send-Waits :
      (t : Hil)
      → Inv t
      → Waits ftl polite t
      → Returns (Waits ftl polite) (
          if leb buff_threshold (recount t).on_going_request
          then fetch ftl ((recount t).on_going_request + 1) (recount t)
          else ok (recount t))
  send-Waits t i h =
      let r = recount t in
      let (count, same) = recount-requests t i in
      let k = recount-Keeps t i in
      elim (Bool-cases (leb buff_threshold r.on_going_request)) [
        | inl full ↦ rw full (
            fetch-Waits (r.on_going_request + 1) r k.inv (recount-Waits t h)
              (omega (arith, count, same)))
        | inr few ↦ rw few (recount-Waits t h)
      ]

  -- With an FTL that gives back only buffers that it holds, with a free buffer, and with the
  -- invariant, HIL_WriteLPN returns: no `_ASSERT` stops it and its loop ends. The state that it
  -- leaves has the write behind all earlier ones of its queue, and the buffers that wait in the
  -- layer are again those that the FTL holds.
  pub write_lpn-Returns :
      (lpn bitmap d : ℕ) (s : Hil)
      → Inv s
      → Waits ftl polite s
      → s.free ≢ []
      → Returns (λ t. Waits ftl polite t × Written lpn d s t) (write_lpn ftl lpn bitmap d s)
  unfolding write_lpn
  write_lpn-Returns lpn bitmap d s i h room =
      let A = Accepts (lpn % num_ftl_core) (lpn / num_ftl_core) d s in
      let P = λ (a : Hil). Waits ftl polite a × A a in
      Returns-both (Waits ftl polite) (Written lpn d s) (write_lpn ftl lpn bitmap d s)
        (Returns-bind P (Waits ftl polite) (enqueue lpn bitmap d s) _
          (Returns-both (Waits ftl polite) A (enqueue lpn bitmap d s)
            (enqueue-Waits lpn bitmap d s h room) (enqueue-Accepts lpn bitmap d s i))
          (λ t k. send-Waits t k.1.inv k.0))
        (write_lpn-Written ftl lpn bitmap d s i)
