-- ===== src/Vfl/Pages.antt =====
-- What is written to a page is what is read from it, and other pages stay.
use shrd_simulator.Base.{
  ℕ, ◌+◌, ◌*◌, ◌≤◌, ◌<◌, ◌≡◌, ◌≢◌, refl, ap, ◌⊎◌, inl, inr, true, false, Option, none, some, List,
  [], ◌∷◌, ◌∙◌, arith, ◌==◌, ◌&&◌, leb, ltb, if◌then◌else◌, Bool-cases,
}
use shrd_simulator.Vfl.{
  Address, Buffer, ProgramOp, ReadOp, Vfl, write_at, seek, page_pos, spare_pos, bytes_per_page,
  bytes_per_lpn, spare_bytes, block_oob_size, program_page, program_plane, meta_program_plane,
  issue_program, issue_read, meta_issue_read, meta_issue_program, half, read_at,
}
use shrd_simulator.Vfl.Places.{
  InNand, same_address, number-same, page_pos-number, spare_pos-number, number,
}

-- The bytes of a page and of its spare data.
abbrev pub page_at : Vfl → Address → ℕ → ℕ
page_at v a k = v.data_file (page_pos a + k)

abbrev pub spare_at : Vfl → Address → ℕ → ℕ
spare_at v a k = v.oob_file (spare_pos a + k)

abbrev pub AllInNand : List ProgramOp → Type 0
AllInNand [] = Unit {0}
AllInNand (op ∷ ops) = InNand op.where_to × AllInNand ops

-- The contents of a page after a program of some page, and after several: those of the last program
-- of the page that has data.
abbrev pub replaced :
    Address → (ℕ → ℕ) → Address → Option Buffer → (ℕ → ℕ) × (ℕ → ℕ) → (ℕ → ℕ) × (ℕ → ℕ)
replaced b spare a none old = old
replaced b spare a (some buf) old = if same_address b a then (buf.bytes, spare) else old

pub written : Address → List ProgramOp → (ℕ → ℕ) × (ℕ → ℕ) → (ℕ → ℕ) × (ℕ → ℕ)
written a [] old = old
written a (op ∷ ops) old = written a ops (replaced op.where_to op.spare a op.p_data old)

same_address-pos :
    (a b : Address)
    → same_address a b ≡ true
    → (page_pos a ≡ page_pos b) × (spare_pos a ≡ spare_pos b)
unfolding page_pos spare_pos seek
same_address-pos a b h = ground arith

write_at-inside : (file f : ℕ → ℕ) (p q n k : ℕ) → p ≡ q → k < n → write_at file p n f (q + k) ≡ f k
unfolding write_at
write_at-inside file f p q n k e lt = rw (inside_test p q n k e lt) (ap f (omega arith))
  where
    inside_test : (p q n k : ℕ) → p ≡ q → k < n → (leb p (q + k) && ltb (q + k) (p + n)) ≡ true
    inside_test p q n k e lt = ground arith

write_at-outside :
    (file f : ℕ → ℕ) (p n r : ℕ) → ((r < p) ⊎ (p + n ≤ r)) → write_at file p n f r ≡ file r
unfolding write_at
write_at-outside file f p n r h = rw (outside_test p n r h) refl
  where
    outside_test : (p n r : ℕ) → ((r < p) ⊎ (p + n ≤ r)) → (leb p r && ltb r (p + n)) ≡ false
    outside_test p n r h = ground arith

program_page-same :
    (a b : Address) (buf : Buffer) (spare : ℕ → ℕ) (v : Vfl) (k : ℕ)
    → same_address a b ≡ true
    → (k < bytes_per_page → page_at (program_page a buf spare v) b k ≡ buf.bytes k)
      × (k < spare_bytes → spare_at (program_page a buf spare v) b k ≡ spare k)
unfolding program_page
program_page-same a b buf spare v k h =
    let (pages, spares) = same_address-pos a b h in
    (
      write_at-inside v.data_file buf.bytes (page_pos a) (page_pos b) bytes_per_page k pages,
      write_at-inside v.oob_file spare (spare_pos a) (spare_pos b) spare_bytes k spares,
    )

number-other :
    (a b : Address) → InNand a → InNand b → same_address a b ≡ false → number a ≢ number b
number-other a b i j h e = ground (arith, number-same a b i j e)

program_page-other :
    (a b : Address) (buf : Buffer) (spare : ℕ → ℕ) (v : Vfl) (k : ℕ)
    → InNand a
    → InNand b
    → same_address a b ≡ false
    → (k < bytes_per_page → page_at (program_page a buf spare v) b k ≡ page_at v b k)
      × (k < spare_bytes → spare_at (program_page a buf spare v) b k ≡ spare_at v b k)
unfolding program_page
program_page-other a b buf spare v k i j h =
    let ne = number-other a b i j h in
    (
      λ lt.
          write_at-outside v.data_file buf.bytes (page_pos a) bytes_per_page (page_pos b + k)
            (omega (arith, ne, page_pos-number a, page_pos-number b)),
      λ lt.
          write_at-outside v.oob_file spare (spare_pos a) spare_bytes (spare_pos b + k)
            (omega (arith, ne, spare_pos-number a, spare_pos-number b)),
    )

-- The bytes of a page and of its spare data in a state.
abbrev pub Holds : Vfl → Address → (ℕ → ℕ) × (ℕ → ℕ) → Type 0
Holds v a (page, spare) =
    ((k : ℕ) → k < bytes_per_page → page_at v a k ≡ page k)
    × ((k : ℕ) → k < spare_bytes → spare_at v a k ≡ spare k)

program_page-Holds :
    (a b : Address) (buf : Buffer) (spare : ℕ → ℕ) (v : Vfl) (old : (ℕ → ℕ) × (ℕ → ℕ))
    → InNand a
    → InNand b
    → Holds v b old
    → Holds (program_page a buf spare v) b (if same_address a b then (buf.bytes, spare) else old)
program_page-Holds a b buf spare v old i j h = elim (Bool-cases (same_address a b)) [
  | inl same ↦ rw same (
    λ k lt. (program_page-same a b buf spare v k same).0 lt,
    λ k lt. (program_page-same a b buf spare v k same).1 lt,
  )
  | inr other ↦ rw other (
    λ k lt. (program_page-other a b buf spare v k i j other).0 lt ∙ h.0 k lt,
    λ k lt. (program_page-other a b buf spare v k i j other).1 lt ∙ h.1 k lt,
  )
]

program_plane-Holds :
    (m : Option Buffer) (a b : Address) (spare : ℕ → ℕ) (v : Vfl) (old : (ℕ → ℕ) × (ℕ → ℕ))
    → InNand a
    → InNand b
    → Holds v b old
    → Holds (program_plane a spare m v) b (replaced a spare b m old)
      × Holds (meta_program_plane a spare m v) b (replaced a spare b m old)
unfolding program_plane meta_program_plane
program_plane-Holds none a b spare v old i j h = (h, h)
program_plane-Holds (some buf) a b spare v old i j h =
    let w = program_page-Holds a b buf spare v old i j h in (w, w)

issue_program-Holds :
    (ops : List ProgramOp) (a : Address) (v : Vfl) (old : (ℕ → ℕ) × (ℕ → ℕ))
    → AllInNand ops
    → InNand a
    → Holds v a old
    → Holds (issue_program ops v) a (written a ops old)
unfolding issue_program written
issue_program-Holds [] a v old i j h = h
issue_program-Holds (op ∷ ops) a v old i j h =
    issue_program-Holds ops a (program_plane op.where_to op.spare op.p_data v)
      (replaced op.where_to op.spare a op.p_data old) i.1 j
      (program_plane-Holds op.p_data op.where_to a op.spare v old i.0 j h).0

meta_issue_program-Holds :
    (ops : List ProgramOp) (a : Address) (v : Vfl) (old : (ℕ → ℕ) × (ℕ → ℕ))
    → AllInNand ops
    → InNand a
    → Holds v a old
    → Holds (meta_issue_program ops v) a (written a ops old)
unfolding meta_issue_program written
meta_issue_program-Holds [] a v old i j h = h
meta_issue_program-Holds (op ∷ ops) a v old i j h =
    meta_issue_program-Holds ops a (meta_program_plane op.where_to op.spare op.p_data v)
      (replaced op.where_to op.spare a op.p_data old) i.1 j
      (program_plane-Holds op.p_data op.where_to a op.spare v old i.0 j h).1

-- What a state holds in a page.
abbrev pub stored : Vfl → Address → (ℕ → ℕ) × (ℕ → ℕ)
stored v a = (page_at v a, spare_at v a)

half-lt : (n k : ℕ) (op : ReadOp) → k < n → half op * n + k < n + n
unfolding half
half-lt n k op lt = ground arith

-- A read of 4 KB after any programs of pages of the NAND gives the half that it asks for of the last
-- program of its page that had data, or of what the page held before; and so for the spare data.
pub issue_program-read :
    (ops : List ProgramOp) (op : ReadOp) (v : Vfl)
    → AllInNand ops
    → InNand op.from
    → ((k : ℕ)
        → k < bytes_per_lpn
        → (issue_read op (issue_program ops v)).0 k
          ≡ (written op.from ops (stored v op.from)).0 (half op * bytes_per_lpn + k))
      × ((k : ℕ)
          → k < 8
          → (issue_read op (issue_program ops v)).1.latest_sparedata
              ((if op.target_sector == 0xff then 0 else 8) + k)
            ≡ (written op.from ops (stored v op.from)).1 (half op * 8 + k))
unfolding issue_read read_at page_pos spare_pos
issue_program-read ops op v i j =
    let w = issue_program ops v in
    let a = op.from in
    let h = issue_program-Holds ops a v (stored v a) i j (λ k lt. refl, λ k lt. refl) in
    (
      λ k lt.
          ap w.data_file (omega arith)
          ∙ h.0 (half op * bytes_per_lpn + k) (half-lt bytes_per_lpn k op lt),
      λ k lt.
          write_at-inside w.latest_sparedata
            (λ n. w.oob_file (seek a * block_oob_size + (a.page * 2 + half op) * 2 * 4 + n))
            (if op.target_sector == 0xff then 0 else 8) (if op.target_sector == 0xff then 0 else 8)
            8 k refl lt
          ∙ ap w.oob_file (omega arith)
          ∙ h.1 (half op * 8 + k) (half-lt 8 k op lt),
    )

-- A read of a whole page by MetaIssue after any programs of pages of the NAND by MetaIssue gives the
-- page and the spare data of the last program of that page that had data, or what it held before.
pub meta_issue_program-read :
    (ops : List ProgramOp) (op : ReadOp) (v : Vfl)
    → AllInNand ops
    → InNand op.from
    → ((k : ℕ)
        → k < bytes_per_page
        → (meta_issue_read op (meta_issue_program ops v)).0 k
          ≡ (written op.from ops (stored v op.from)).0 k)
      × ((k : ℕ)
          → k < spare_bytes
          → (meta_issue_read op (meta_issue_program ops v)).1.latest_sparedata k
            ≡ (written op.from ops (stored v op.from)).1 k)
unfolding meta_issue_read read_at
meta_issue_program-read ops op v i j =
    let w = meta_issue_program ops v in
    let a = op.from in
    let h = meta_issue_program-Holds ops a v (stored v a) i j (λ k lt. refl, λ k lt. refl) in
    (
      h.0,
      λ k lt.
          ap (write_at w.latest_sparedata 0 spare_bytes (λ n. w.oob_file (spare_pos a + n)))
            (omega arith)
          ∙ write_at-inside w.latest_sparedata (λ n. w.oob_file (spare_pos a + n)) 0 0 spare_bytes k
              refl lt
          ∙ h.1 k lt,
    )
