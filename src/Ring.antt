-- ===== src/Ring.antt =====
-- The circular doubly linked lists of the simulator, on an explicit memory of links: `HIL_queue`
-- (HILWrapper.cpp), `TWRITE_HDR_LIST`, `REMAP_HDR_LIST` and `block_struct_head` (ATLWrapper.cpp).
-- An address is a number and `null` is 0. `_ASSERT` and `RSP_ASSERT` loop forever, which is `none`.
-- A `block_struct` has the address of its block number plus one.
pub mod Memory
pub mod Insert
pub mod Remove
pub mod Move
pub mod Blocks
pub mod Tests
use shrd_simulator.Base.{
  ℕ, suc, ◌+◌, ◌-◌, ◌%◌, ◌^◌, ◌≡◌, Bool, Option, none, some, List, [], ◌∷◌, ◌==◌, if◌then◌else◌,
  not, ◌&&◌, length, IsDistinct,
}
use shrd_simulator.Ring.Memory.{Links, Chain, set_next, set_before}

abbrev pub null : ℕ
null = 0

-- The head of a list: its first entry and its number of entries.
pub record ListHead : Type 0 where
  pub head : ℕ
  pub size : ℕ

-- `size++` and `size--` on an RSP_UINT32.
abbrev inc : ℕ → ℕ
inc n = (n + 1) % 2 ^ 32

abbrev dec : ℕ → ℕ
dec n = (n + 2 ^ 32 - 1) % 2 ^ 32

-- The body of every insertion at the tail.
pub link_tail : Links → ListHead → ℕ → Links × ListHead
unfolding set_next set_before
link_tail l q b =
    if q.size == 0
    then (set_before (set_next l b b) b b, record { head = b; size = inc q.size })
    else (
      let l₁ = set_before l b (l.before q.head) in
          let l₂ = set_next l₁ b q.head in
          let l₃ = set_next l₂ (l₂.before q.head) b in set_before l₃ q.head b,
      record q { size = inc q.size },
    )

-- The body of every removal.
pub unlink : Links → ListHead → ℕ → Links × ListHead
unfolding set_next set_before
unlink l q b =
    let first = if q.head == b then l.next b else q.head in
    let l₁ = set_next l (l.before b) (l.next b) in
    let l₂ = set_before l₁ (l₁.next b) (l₁.before b) in
    let left = dec q.size in (l₂, record { head = if left == 0 then null else first; size = left })

pub insert_buff : Links → ListHead → ℕ → Option (Links × ListHead)
insert_buff l q b = if b == null then none else some (link_tail l q b)

pub del_buff : Links → ListHead → ℕ → Option (Links × ListHead)
del_buff l q b = if b == null then none else some (unlink l q b)

pub insert_twrite_entry : Links → ℕ → ListHead → Links × ListHead
insert_twrite_entry l entry q = link_tail l q entry

pub del_twrite_entry : Links → ℕ → ListHead → Links × ListHead
del_twrite_entry l entry q = unlink l q entry

pub insert_remap_entry : Links → ℕ → ListHead → Links × ListHead
insert_remap_entry l entry q = link_tail l q entry

pub del_remap_entry : Links → ℕ → ListHead → Links × ListHead
del_remap_entry l entry q = unlink l q entry

abbrev pub block_ptr : ℕ → ℕ
block_ptr block = suc block

pub insert_bl_front : Links → ℕ → ListHead → Links × ListHead
insert_bl_front l block q =
    let (l', q') = link_tail l q (block_ptr block) in (l', record q' { head = block_ptr block })

pub insert_bl_tail : Links → ℕ → ListHead → Links × ListHead
insert_bl_tail l block q = link_tail l q (block_ptr block)

-- The two branches of the source differ in the new head only.
pub del_blk_from_list : Links → ℕ → ListHead → Option (Links × ListHead)
unfolding set_next set_before
del_blk_from_list l block q =
    let b = block_ptr block in
    let left = dec q.size in
    let l₁ = set_next l (l.before b) (l.next b) in
    let l₂ = set_before l₁ (l₁.next b) (l₁.before b) in
    let first = if q.head - 1 == block then l₂.next b else q.head in
    if q.size == 0
    then none
    else if left == 0 && not (q.head == l.next q.head)
    then none
    else some (l₂, record { head = if left == 0 then null else first; size = left })

-- The memory holds `xs`, first entry first, as a ring that `q` heads.
abbrev pub IsRing : Links → ListHead → List ℕ → Type 0
IsRing l q [] = q.size ≡ 0
IsRing l q (x ∷ xs) =
    (q.head ≡ x) × (q.size ≡ suc (length xs)) × Chain l x xs x × IsDistinct (x ∷ xs)
