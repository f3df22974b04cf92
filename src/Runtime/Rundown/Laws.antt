-- ===== src/Runtime/Rundown/Laws.antt =====
-- The counter as a stop flag and a number of holders.
use shinken_sentinel.Prelude.{
  ℕ, zero, suc, ◌+◌, ◌-◌, ◌^◌, ◌<◌, ◌≤◌, ◌≡◌, ◌↔◌, Bool, true, false, if◌then◌else◌, List, [], ◌∷◌,
  ◌==◌, arith, Bool-cases, inl, inr, ◌⊎◌, ℕ_discrete,
}
use shinken_sentinel.Status.{status_success, status_timeout}
use shinken_sentinel.Runtime.State.{Runtime, report_underflow}
use shinken_sentinel.Runtime.Rundown.{
  Rundown, stop_bit, acquire, begin_stop, release, drained, holders, active_count, drain_from,
  drain,
}

-- The count stands for this stop flag and this many holders, which a UINT30 holds.
pub record View (r : Rundown) (stopped : Bool) (n : ℕ) : Type 0 where
  pub pattern : r.count ≡ n + (if stopped then stop_bit else 0)
  pub few : n ≤ 2 ^ 30

-- What the operations do to a counter with this view.
pub record Behaviour (r : Rundown) (stopped : Bool) (n : ℕ) (rt : Runtime) : Type 0 where
  pub gained :
      stopped ≡ false → n < 2 ^ 30 → ((acquire r).0 ≡ true) × View (acquire r).1 false (n + 1)
  pub refused : (stopped ≡ true) ⊎ (n ≡ 2 ^ 30) → acquire r ≡ (false, r)
  pub stops : View (begin_stop r) true n
  pub gives_back : 0 < n → View (release r rt).0 stopped (n - 1) × ((release r rt).1 ≡ rt)
  pub underflow :
      n ≡ 0
      → View (release r rt).0 stopped 0
        × ((release r rt).0.underflows ≡ r.underflows + 1)
        × ((release r rt).1 ≡ report_underflow rt)
  pub counts :
      active_count r ≡ (if stopped then (if n == 0 then drained else holders n) else holders n)

-- On a counter that stands for a stop flag and `n` holders: an acquire gains a holder unless the
-- counter is stopped or full, and then changes nothing; a stop sets the flag and keeps the holders; a
-- release of a holder takes one away; a release without a holder leaves the view, and is counted and
-- reported; the active count is -1 exactly where the counter is stopped with no holder, else `n`.
pub rundown-Behaviour :
    (r : Rundown) (stopped : Bool) (n : ℕ) (rt : Runtime)
    → View r stopped n
    → Behaviour r stopped n rt
unfolding acquire begin_stop release active_count
rundown-Behaviour r stopped n rt v = record {
  gained = λ s h. ground arith;
  refused = λ h. ground arith;
  stops = ground arith;
  gives_back = λ h. ground arith;
  underflow = λ h. ground arith;
  counts = ground arith;
}

pub data RundownOp : Type 0 where
  op_acquire op_stop : RundownOp
  op_release : Runtime → RundownOp

abbrev pub apply_op : RundownOp → Rundown → Rundown
apply_op op_acquire r = (acquire r).1
apply_op op_stop r = begin_stop r
apply_op (op_release rt) r = (release r rt).0

abbrev pub apply_ops : List RundownOp → Rundown → Rundown
apply_ops [] r = r
apply_ops (op ∷ ops) r = apply_ops ops (apply_op op r)

stopped_step :
    (op : RundownOp) (r : Rundown) (n : ℕ)
    → View r true n
    → (m : ℕ) × View (apply_op op r) true m × (m ≤ n)
unfolding acquire begin_stop release
stopped_step op_acquire r n v = (n, ground arith, omega arith)
stopped_step op_stop r n v = (n, ground arith, omega arith)
stopped_step (op_release rt) r zero v = (0, ground arith, omega arith)
stopped_step (op_release rt) r (suc n) v = (n, ground arith, omega arith)

-- After the stop bit is set no sequence of operations, unpaired releases included, clears it or adds a
-- holder: every later acquire fails, and a counter that is drained stays drained.
pub stopped_forever :
    (ops : List RundownOp) (r : Rundown) (n : ℕ)
    → View r true n
    → (m : ℕ) × View (apply_ops ops r) true m × (m ≤ n) × ((acquire (apply_ops ops r)).0 ≡ false)
unfolding acquire
stopped_forever [] r n v = (n, v, omega arith, ground arith)
stopped_forever (op ∷ ops) r n v =
    let (k, w, le) = stopped_step op r n v in
    let (m, u, le', no_more) = stopped_forever ops (apply_op op r) k w in
    (m, u, omega arith, no_more)

drain_from_iff :
    (reads : ℕ → ℕ) (left i : ℕ)
    → (drain_from reads left i ≡ status_success)
      ↔ ((j : ℕ) × (i ≤ j) × (j ≤ i + left) × (reads j ≡ stop_bit))
unfolding drain_from
drain_from_iff reads zero i = (
  λ h. (i, omega arith, omega arith, ground arith),
  λ (j, lo, hi, e).
      let same : i ≡ j = omega arith in let hit : reads i ≡ stop_bit = rw same e in ground arith,
)
drain_from_iff reads (suc left) i = (
  forward (Bool-cases (reads i == stop_bit)) (drain_from_iff reads left (i + 1)).0,
  backward (drain_from_iff reads left (i + 1)).1,
)
  where
    Later : Type 0
    Later = (j : ℕ) × (i + 1 ≤ j) × (j ≤ i + 1 + left) × (reads j ≡ stop_bit)

    forward :
        ((reads i == stop_bit) ≡ true) ⊎ ((reads i == stop_bit) ≡ false)
        → (drain_from reads left (i + 1) ≡ status_success → Later)
        → drain_from reads (suc left) i ≡ status_success
        → (j : ℕ) × (i ≤ j) × (j ≤ i + suc left) × (reads j ≡ stop_bit)
    forward (inl hit) ih h = (i, omega arith, omega arith, ground arith)
    forward (inr miss) ih h =
        let (j, lo, hi, e) = ih (ground arith) in (j, omega arith, omega arith, e)

    backward :
        (Later → drain_from reads left (i + 1) ≡ status_success)
        → (j : ℕ) × (i ≤ j) × (j ≤ i + suc left) × (reads j ≡ stop_bit)
        → drain_from reads (suc left) i ≡ status_success
    backward ih (j, lo, hi, e) = elim (ℕ_discrete i j) [
      | yes same ↦ let hit : reads i ≡ stop_bit = rw same e in ground arith
      | no other ↦ let rest = ih (j, omega arith, omega arith, e) in ground arith
    ]

drain_from_result :
    (reads : ℕ → ℕ) (left i : ℕ)
    → (drain_from reads left i ≡ status_success) ⊎ (drain_from reads left i ≡ status_timeout)
unfolding drain_from
drain_from_result reads zero i = ground arith
drain_from_result reads (suc left) i = ground (arith, drain_from_result reads left (i + 1))

-- `ShRundownDrain` succeeds exactly when one of its polls, at most `retries` after the first, reads a
-- counter that is stopped with no holder; otherwise it answers STATUS_TIMEOUT.
pub drain_iff :
    (reads : ℕ → ℕ) (retries : ℕ)
    → ((drain reads retries ≡ status_success) ↔ ((i : ℕ) × (i ≤ retries) × (reads i ≡ stop_bit)))
      × ((drain reads retries ≡ status_success) ⊎ (drain reads retries ≡ status_timeout))
unfolding drain
drain_iff reads retries = ((forward, backward), drain_from_result reads retries 0)
  where
    forward :
        drain_from reads retries 0 ≡ status_success → (i : ℕ) × (i ≤ retries) × (reads i ≡ stop_bit)
    forward h = let (j, lo, hi, e) = (drain_from_iff reads retries 0).0 h in (j, omega arith, e)

    backward :
        (i : ℕ) × (i ≤ retries) × (reads i ≡ stop_bit) → drain_from reads retries 0 ≡ status_success
    backward (i, hi, e) = (drain_from_iff reads retries 0).1 (i, omega arith, omega arith, e)
