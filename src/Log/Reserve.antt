-- ===== src/Log/Reserve.antt =====
-- The loop of AddRecord in which writers that run at once take their parts of the file, with
-- `__sync_bool_compare_and_swap` on offset_ (db/log_writer.cc).
use pebblesdb.Common.{ℕ, ◌+◌, ◌^◌, ◌<◌, ◌≤◌, ◌≡◌, ◌≢◌, ◌⊎◌, arith, ℕ_discrete}
use mathlib.Core.Logic.{ite}
use pebblesdb.Log.{k_header_size}
use pebblesdb.Log.Writer.{end_offset}
use pebblesdb.Log.Extent.{end_offset-eq-record_end}

-- Where a writer is: before the load of offset_, behind it, or with start_offset and end_offset.
pub data Phase : Type 0 where
  before : Phase
  loaded : ℕ → Phase
  reserved : ℕ → ℕ → Phase

pub record System : Type 0 where
  pub offset : ℕ
  pub phase : ℕ → Phase

abbrev pub update : (ℕ → Phase) → ℕ → Phase → ℕ → Phase
update f i p j = ite (ℕ_discrete i j) p (f j)

-- One step of the writer `i`, whose record has `size i` bytes.
pub data Step (size : ℕ → ℕ) : System → System → Type 0 where
  load :
      {s : System} (i : ℕ)
      → s.phase i ≡ before
      → Step size s (record s { phase = update s.phase i (loaded s.offset) })
  swap :
      {s : System} (i o : ℕ)
      → s.phase i ≡ loaded o
      → s.offset ≡ o
      → Step size s (record {
        offset = end_offset o (size i);
        phase = update s.phase i (reserved o (end_offset o (size i)));
      })
  retry :
      {s : System} (i o : ℕ)
      → s.phase i ≡ loaded o
      → s.offset ≢ o
      → Step size s (record s { phase = update s.phase i before })

-- The states that a new Writer reaches while its file is below 4 GiB.
pub data Reach (size : ℕ → ℕ) : System → Type 0 where
  start : Reach size (record { offset = 0; phase = λ i. before })
  later :
      {s t : System}
      → Reach size s
      → s.offset + k_header_size < 2 ^ 32
      → Step size s t
      → Reach size t

-- Reserved ranges end where offset_ is or before, and no two overlap.
record Apart (size : ℕ → ℕ) (s : System) : Type 0 where
  ends : (i from to : ℕ) → s.phase i ≡ reserved from to → to ≤ s.offset
  wide : (i from to : ℕ) → s.phase i ≡ reserved from to → from + size i + k_header_size ≤ to
  apart :
      (i j from to from' to' : ℕ)
      → i ≢ j
      → s.phase i ≡ reserved from to
      → s.phase j ≡ reserved from' to'
      → (to ≤ from') ⊎ (to' ≤ from)

grows :
    (o size : ℕ)
    → o + k_header_size < 2 ^ 32
    → size < 2 ^ 32
    → o + size + k_header_size ≤ end_offset o size
grows o size h small = ground (arith, end_offset-eq-record_end o size h small)

-- A step to a phase without a range keeps them apart.
Apart-quiet :
    (size : ℕ → ℕ) (s : System) (i : ℕ) (p : Phase)
    → ((from to : ℕ) → p ≢ reserved from to)
    → Apart size s
    → Apart size (record s { phase = update s.phase i p })
Apart-quiet size s i p quiet a = record {
  ends = λ j from to e. grind (arith, a.ends, quiet);
  wide = λ j from to e. grind (arith, a.wide, quiet);
  apart = λ j k from to from' to' ne e e'. grind (arith, a.apart, quiet);
}

Apart-swap :
    (size : ℕ → ℕ) (s : System) (i : ℕ)
    → s.offset + k_header_size < 2 ^ 32
    → size i < 2 ^ 32
    → Apart size s
    → Apart size (record {
      offset = end_offset s.offset (size i);
      phase = update s.phase i (reserved s.offset (end_offset s.offset (size i)));
    })
Apart-swap size s i below small a = record {
  ends = λ j from to e. grind (arith, a.ends, grows s.offset (size i) below small);
  wide = λ j from to e. grind (arith, a.wide, grows s.offset (size i) below small);
  apart = λ j k from to from' to' ne e e'. grind (arith, a.apart, a.ends);
}

Step-Apart :
    {size : ℕ → ℕ} {s t : System}
    → ((i : ℕ) → size i < 2 ^ 32)
    → s.offset + k_header_size < 2 ^ 32
    → Step size s t
    → Apart size s
    → Apart size t
Step-Apart {size} {s = s} small below (Step.load i e) a =
    Apart-quiet size s i (loaded s.offset) (λ from to. cc) a
Step-Apart {size} {s = s} small below (Step.swap i o e same) a =
    rw (← same) (Apart-swap size s i below (small i) a)
Step-Apart {size} {s = s} small below (Step.retry i o e differs) a =
    Apart-quiet size s i before (λ from to. cc) a

Reach-Apart :
    {size : ℕ → ℕ} {s : System} → ((i : ℕ) → size i < 2 ^ 32) → Reach size s → Apart size s
Reach-Apart small start = record {
  ends = λ i from to e. cc;
  wide = λ i from to e. cc;
  apart = λ i j from to from' to' ne e e'. cc;
}
Reach-Apart small (later r below step) = Step-Apart small below step (Reach-Apart small r)

-- Writers that run at once, each with a record of less than 4 GiB: while the file is below 4 GiB,
-- the ranges that two of them reserve do not overlap, and each ends at offset_ or before it and
-- has room for a header and the record.
pub Reach-disjoint :
    {size : ℕ → ℕ} {s : System}
    → ((i : ℕ) → size i < 2 ^ 32)
    → Reach size s
    → (i j from to from' to' : ℕ) → i ≢ j
    → s.phase i ≡ reserved from to
    → s.phase j ≡ reserved from' to'
    → ((to ≤ from') ⊎ (to' ≤ from)) × (to ≤ s.offset) × (from + size i + k_header_size ≤ to)
Reach-disjoint small r i j from to from' to' ne e e' =
    let a = Reach-Apart small r in
    (a.apart i j from to from' to' ne e e', a.ends i from to e, a.wide i from to e)
