-- ===== src/Hil.antt =====
-- HILWrapper.cpp: the host interface layer, which gathers 4 KB writes into 8 KB buffers, queues them
-- per FTL core and bank, and sends them to the FTL in batches.
--
-- A `HIL_queue` is the list of its buffers, head first: Ring.Move proves that `insert_buff` and
-- `del_buff` on the linked memory do to a ring what the lists here show. The FTL below is a
-- parameter, a function of the calls made so far: what RSP_WritePage returns, and the buffers that
-- it gives back by HIL_BuffFree meanwhile. A 4 KB content is a number.
pub mod State
pub mod Invariant
pub mod Free
pub mod Send
pub mod Sends
pub mod Fetch
pub mod Accept
pub mod EnqueueUrgent
pub mod EnqueueNormal
pub mod Write
pub mod Read
pub mod History
pub mod Polite
pub mod Progress
pub mod Live
pub mod Lines
pub mod Count
pub mod Tests
use shrd_simulator.Base.{
  ℕ, zero, suc, ◌+◌, ◌-◌, ◌*◌, ◌/◌, ◌%◌, ◌≤◌, Bool, true, false, Option, none, some, List, [], ◌∷◌,
  ◌++◌, ◌==◌, leb, if◌then◌else◌, not,
}
use Prim.Native.Nat.{bit_and, bit_or}
use shrd_simulator.Config.{
  u32, invalid_lpn, num_ftl_core, num_perbank_queue, buff_threshold, special_lpn_start, num_buff,
}
use shrd_simulator.Hil.State.{
  Buff, Hil, Run, ok, stuck, out_of_fuel, ◌>>=◌, Call, write, read, Reply, update, update₂,
}

-- HIL_buff_init
unfoldable pub buff_init : Buff → Buff
buff_init t = record t { lpn0 = invalid_lpn; lpn1 = invalid_lpn; half0 = 0; half1 = 0; bitmap = 0 }

-- The walk of HIL_BuffFree: the first waiting buffer with that memory, and the others.
pub take_buff : ℕ → List Buff → Option (Buff × List Buff)
take_buff a [] = none
take_buff a (t ∷ ts) =
    if t.addr == a
    then some (t, ts)
    else elim (take_buff a ts) [ none ↦ none | some (u, us) ↦ some (u, t ∷ us) ]

-- HIL_BuffFree: a buffer that is not waiting ends in `_ASSERT`.
pub buff_free : ℕ → Hil → Run Hil
buff_free a s = elim (take_buff a s.waiting) [
  | none ↦ stuck
  | some (t, ts) ↦ ok (record s { waiting = ts; free = s.free ++ buff_init t ∷ [] })
]

pub buff_frees : List ℕ → Hil → Run Hil
buff_frees [] s = ok s
buff_frees (a ∷ rest) s = buff_free a s >>= buff_frees rest

-- The buffer that a queue's last entry leaves half empty, with the entries before it.
pub last_partial : List Buff → Option (List Buff × Buff)
last_partial [] = none
last_partial (t ∷ []) = if t.partial then some ([], t) else none
last_partial (t ∷ u ∷ ts) = elim (last_partial (u ∷ ts)) [
  | none ↦ none
  | some (front, l) ↦ some (t ∷ front, l)
]

-- The first half of HIL_WriteLPN: the write enters a queue.
pub fill_first : Buff → ℕ → ℕ → ℕ → Buff
fill_first t lpn bitmap d = record t { half0 = d; lpn0 = lpn; bitmap = bit_and 0xff bitmap; rw = 0 }

pub fill_second : Buff → ℕ → ℕ → ℕ → Buff
fill_second t lpn bitmap d = record t {
  half1 = d;
  lpn1 = lpn;
  bitmap = bit_or t.bitmap (bit_and 0xff00 (bitmap * 256));
  rw = 0;
  partial = false;
}

pub enqueue_urgent : ℕ → ℕ → ℕ → ℕ → Hil → Run Hil
unfolding fill_first
enqueue_urgent core lpn bitmap d s = elim s.free [
  | [] ↦ stuck
  | t ∷ ts ↦ ok (record s {
    free = ts;
    urgent = update s.urgent core (s.urgent core ++ fill_first t lpn bitmap d ∷ []);
    on_going_urgent = (s.on_going_urgent + 1) % u32;
  })
]

pub enqueue_normal : ℕ → ℕ → ℕ → ℕ → Hil → Run Hil
unfolding fill_first fill_second
enqueue_normal core lpn bitmap d s =
    let bank = lpn % num_perbank_queue in
    let s' = record s { on_going_normal = (s.on_going_normal + 1) % u32 } in
    elim (last_partial (s.banks core bank)) [
      | some (front, t) ↦ ok (record s' {
        banks = update₂ s.banks core bank (front ++ fill_second t lpn bitmap d ∷ []);
      })
      | none ↦ elim s.free [
        | [] ↦ stuck
        | t ∷ ts ↦ ok (record s' {
          free = ts;
          banks =
              update₂ s.banks core bank
                (s.banks core bank ++ record (fill_first t lpn bitmap d) { partial = true } ∷ []);
        })
      ]
    ]

pub enqueue : ℕ → ℕ → ℕ → Hil → Run Hil
unfolding enqueue_urgent enqueue_normal
enqueue lpn bitmap d s =
    if leb special_lpn_start (lpn / num_ftl_core)
    then enqueue_urgent (lpn % num_ftl_core) (lpn / num_ftl_core) bitmap d s
    else enqueue_normal (lpn % num_ftl_core) (lpn / num_ftl_core) bitmap d s

-- `LPN[cnt] != RSP_INVALID_LPN` over the two halves.
pub weight : Buff → ℕ
weight t = (if t.lpn0 == invalid_lpn then 0 else 1) + (if t.lpn1 == invalid_lpn then 0 else 1)

abbrev pub call : ℕ → Buff → Call
call core t = write core t.lpn0 t.lpn1 t.bitmap t.addr t.half0 t.half1

-- The round robin over the bank queues of a core.
pub pick_bank : Hil → ℕ → ℕ → ℕ → Option ℕ
pick_bank s core zero iter = none
pick_bank s core (suc n) iter = elim (s.banks core ((s.global_rr_cnt + iter) % num_perbank_queue)) [
  | [] ↦ pick_bank s core n (iter + 1)
  | t ∷ ts ↦ some ((s.global_rr_cnt + iter) % num_perbank_queue)
]

pub after_urgent : ℕ → Buff → List Buff → Bool × Hil → Hil
after_urgent core t ts (ret, s) =
    let s' = record s {
      urgent = update s.urgent core ts;
      on_going_urgent = (s.on_going_urgent + u32 - 1) % u32;
    } in
    if ret
    then record s' { waiting = s.waiting ++ t ∷ [] }
    else record s' { free = s.free ++ buff_init t ∷ [] }

pub release : Buff → Bool × Hil → Run Hil
release t (ret, s) = if ret then ok s else buff_free t.addr s

-- `on_going_request = on_going_urgent_request + on_going_normal_request`
pub recount : Hil → Hil
recount s = record s { on_going_request = (s.on_going_urgent + s.on_going_normal) % u32 }

-- The end of HIL_ReadLPN: what the FTL reads goes to a buffer that is cleared and given back.
pub read_page : ℕ → Hil → Run Hil
read_page lpn s = elim s.free [
  | [] ↦ stuck
  | t ∷ ts ↦ ok (record s {
    free = ts ++ record (buff_init t) { rw = 1 } ∷ [];
    calls = s.calls ++ read (lpn % num_ftl_core) (lpn / num_ftl_core) ∷ [];
  })
]

module _ (ftl : List Call → Reply) where
  -- A call of RSP_WritePage: its answer, and the state that its HIL_BuffFree calls leave.
  pub write_page : ℕ → Buff → Hil → Run (Bool × Hil)
  unfolding buff_frees
  write_page core t s =
      let r = ftl (s.calls ++ call core t ∷ []) in
      buff_frees r.freed (record s { calls = s.calls ++ call core t ∷ [] }) >>= λ s'. ok (r.ret, s')

  pub send_urgent : ℕ → Hil → Run Hil
  unfolding write_page after_urgent
  send_urgent core s = elim (s.urgent core) [
    | [] ↦ ok s
    | t ∷ ts ↦ write_page core t s >>= λ r. ok (after_urgent core t ts r)
  ]

  pub send_bank : ℕ → ℕ → Hil → Run Hil
  unfolding write_page release
  send_bank core bank s = elim (s.banks core bank) [
    | [] ↦ ok s
    | t ∷ ts ↦
        write_page core t (record s {
          banks = update₂ s.banks core bank ts;
          waiting = s.waiting ++ t ∷ [];
          on_going_normal = (s.on_going_normal + u32 - weight t) % u32;
        })
        >>= release t
  ]

  pub send_normal : ℕ → Hil → Run Hil
  unfolding send_bank
  send_normal core s = elim (pick_bank s core num_perbank_queue 0) [
    | none ↦ ok s
    | some bank ↦ send_bank core bank s
  ]

  pub round : Hil → Run Hil
  unfolding send_urgent send_normal
  round s =
      if s.on_going_urgent == 0
      then send_normal 0 s >>= send_normal 1
      else send_urgent 0 s >>= send_urgent 1

  -- The fetching loop, each round of which sends at least one buffer.
  pub fetch : ℕ → Hil → Run Hil
  fetch zero s = out_of_fuel
  fetch (suc n) s =
      let s' = recount s in
      let rest = round s' >>= fetch n in if s'.on_going_request == 0 then ok s' else rest

  -- HIL_WriteLPN
  pub write_lpn : ℕ → ℕ → ℕ → Hil → Run Hil
  unfolding enqueue recount fetch
  write_lpn lpn bitmap d s = enqueue lpn bitmap d s >>= λ s₁.
      let s₂ = recount s₁ in
      if leb buff_threshold s₂.on_going_request then fetch (s₂.on_going_request + 1) s₂ else ok s₂

  -- The loop of HIL_ReadLPN, which sends the urgent buffers only.
  pub flush_urgent : ℕ → Hil → Run Hil
  flush_urgent zero s = out_of_fuel
  flush_urgent (suc n) s =
      let rest = send_urgent 0 s >>= send_urgent 1 >>= flush_urgent n in
      if s.on_going_urgent == 0 then ok s else rest

  -- HIL_ReadLPN
  pub read_lpn : ℕ → Hil → Run Hil
  unfolding flush_urgent
  read_lpn lpn s = flush_urgent (s.on_going_urgent + s.on_going_normal + 1) s >>= read_page lpn

-- The constructor: all buffers are free, at distinct addresses.
abbrev pub new_buff : ℕ → Buff
new_buff n = record {
  addr = n;
  lpn0 = invalid_lpn;
  lpn1 = invalid_lpn;
  bitmap = 0;
  rw = 0;
  partial = false;
  half0 = 0;
  half1 = 0;
}

pub free_buffs : ℕ → List Buff
free_buffs zero = []
free_buffs (suc n) = free_buffs n ++ new_buff n ∷ []

pub hil_init : Hil
hil_init = record {
  free = free_buffs num_buff;
  waiting = [];
  urgent = λ core. [];
  banks = λ core bank. [];
  on_going_request = 0;
  on_going_urgent = 0;
  on_going_normal = 0;
  global_rr_cnt = 0;
  calls = [];
}
