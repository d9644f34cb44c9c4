-- ===== src/Hil/State.antt =====
-- The data of HILWrapper.h, the calls into the FTL, and runs that may stop in `_ASSERT`.
use shrd_simulator.Base.{ℕ, Bool, List, ◌==◌, if◌then◌else◌}

-- HIL_buff, with its 8 KB of memory in halves. `addr` is the address of that memory.
pub record Buff : Type 0 where
  pub addr : ℕ
  pub lpn0 : ℕ
  pub lpn1 : ℕ
  pub bitmap : ℕ
  pub rw : ℕ
  pub partial : Bool
  pub half0 : ℕ
  pub half1 : ℕ

-- A call of RSP_WritePage (core, LPN[0], LPN[1], SectorBitmap, BufferAddress with its content), or
-- of RSP_ReadPage (core, LPN).
pub data Call : Type 0 where
  write : ℕ → ℕ → ℕ → ℕ → ℕ → ℕ → ℕ → Call
  read : ℕ → ℕ → Call

-- What RSP_WritePage returns, and the buffers for which it calls HIL_BuffFree on the way.
pub record Reply : Type 0 where
  pub ret : Bool
  pub freed : List ℕ

-- HILWrapper, and the calls into the FTL so far.
pub record Hil : Type 0 where
  pub free : List Buff
  pub waiting : List Buff
  pub urgent : ℕ → List Buff
  pub banks : ℕ → ℕ → List Buff
  pub on_going_request : ℕ
  pub on_going_urgent : ℕ
  pub on_going_normal : ℕ
  pub global_rr_cnt : ℕ
  pub calls : List Call

-- `stuck` is the loop of `_ASSERT`.
pub data Run (A : Type 0) : Type 0 where
  ok : A → Run A
  stuck : Run A
  out_of_fuel : Run A

infixl 5 ◌>>=◌
abbrev pub ◌>>=◌ : {A B : Type 0} → Run A → (A → Run B) → Run B
ok a >>= k = k a
stuck >>= k = stuck
out_of_fuel >>= k = out_of_fuel

abbrev pub update : {A : Type 0} → (ℕ → A) → ℕ → A → ℕ → A
update f i v j = if j == i then v else f j

abbrev pub update₂ : {A : Type 0} → (ℕ → ℕ → A) → ℕ → ℕ → A → ℕ → ℕ → A
update₂ f i j v = update f i (update (f i) j v)
