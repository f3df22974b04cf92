-- ===== src/Telemetry/Ring.antt =====
-- telemetry/event_queue.c: the ring of consumed records. A slot and a row of the output are functions
-- from a position to a byte, so what a shorter copy leaves behind stays in them.
pub mod Laws
use shinken_sentinel.Prelude.{
  ℕ, zero, suc, ◌+◌, ◌-◌, ◌%◌, ◌^◌, Bool, ◌||◌, if◌then◌else◌, ltb, ◌==◌,
}

-- The inline record of a node.
pub record Payload : Type 0 where
  pub size : ℕ
  pub byte : ℕ → ℕ

-- `g_SkRing`, `g_SkRingSize`, `g_SkRingHead` and `g_SkRingTotal`
pub record Ring : Type 0 where
  pub slots : ℕ → ℕ → ℕ
  pub sizes : ℕ → ℕ
  pub head : ℕ
  pub total : ℕ

-- The static storage, all zero.
unfoldable pub ring_init : Ring
ring_init = record { slots = λ i j. 0; sizes = λ i. 0; head = 0; total = 0 }

-- `RtlCopyMemory(to, from, n)`
unfoldable pub copy_bytes : ℕ → (ℕ → ℕ) → (ℕ → ℕ) → ℕ → ℕ
copy_bytes n from to j = if ltb j n then from j else to j

unfoldable pub set_at : {A : Type 0} → ℕ → A → (ℕ → A) → ℕ → A
set_at i x f k = if k == i then x else f k

unfoldable pub is_odd_size : Payload → Bool
is_odd_size p = p.size == 0 || ltb 80 p.size

-- `shTelemetrySink`
unfoldable pub sink : Payload → Ring → Ring
sink p r = if is_odd_size p then r else record {
  slots = set_at r.head (copy_bytes p.size p.byte (r.slots r.head)) r.slots;
  sizes = set_at r.head p.size r.sizes;
  head = (r.head + 1) % 1024;
  total = (r.total + 1) % 2 ^ 64;
}

unfoldable pub smaller : ℕ → ℕ → ℕ
smaller a b = if ltb a b then a else b

-- The loop of `SkTelemetryFlush`: the rounds left, the row they start at, `start` and `recordSize`.
unfoldable pub copy_rows : ℕ → ℕ → ℕ → ℕ → Ring → (ℕ → ℕ → ℕ) → ℕ → ℕ → ℕ
copy_rows zero i start size r out = out
copy_rows (suc left) i start size r out =
    copy_rows left (i + 1) start size r
      (set_at i (copy_bytes size (r.slots ((start + i) % 1024)) (out i)) out)

-- `SkTelemetryFlush` with an output buffer: the count and the buffer after the call.
unfoldable pub flush : ℕ → ℕ → Ring → (ℕ → ℕ → ℕ) → ℕ × (ℕ → ℕ → ℕ)
flush max_records size r out =
    let n = smaller (smaller r.total 1024) max_records in
    if ltb 80 size || size == 0
    then (0, out)
    else (n, copy_rows n 0 ((r.head + 1024 - n) % 1024) size r out)
