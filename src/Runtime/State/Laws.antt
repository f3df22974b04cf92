-- ===== src/Runtime/State/Laws.antt =====
-- What the operations of the state machine may do, and what an unload ends in.
use shinken_sentinel.Prelude.{
  ℕ, zero, suc, ◌+◌, ◌<◌, ◌≤◌, ◌≡◌, ◌≢◌, refl, List, [], ◌∷◌, Bool, true, false, get_or, length,
  arith, if◌then◌else◌, length-set, sym, ◌∙◌, ltb, ◌==◌, ◌-◌, get_or-set_self, get_or-set_ne,
  dec_lt, ◌↔◌,
}
use shinken_sentinel.Runtime.State.{
  RuntimeState, uninitialized, active, teardown, quiescent, unload_blocked, BlockReason, no_reason,
  Runtime, block_history_cap, runtime_init, activate, begin_teardown, record_block, history_at,
  enter_quiescent, enter_unload_blocked, report_underflow, run_unload,
}

-- Every operation of the state machine that changes it.
pub data RuntimeOp : Type 0 where
  op_init op_activate op_begin_teardown op_enter_quiescent op_report_underflow : RuntimeOp
  op_record_block op_enter_unload_blocked : BlockReason → RuntimeOp

abbrev pub apply_op : RuntimeOp → Runtime → Runtime
apply_op op_init r = runtime_init r
apply_op op_activate r = activate r
apply_op op_begin_teardown r = (begin_teardown r).1
apply_op op_enter_quiescent r = enter_quiescent r
apply_op op_report_underflow r = report_underflow r
apply_op (op_record_block why) r = record_block why r
apply_op (op_enter_unload_blocked why) r = enter_unload_blocked why r

abbrev pub apply_ops : List RuntimeOp → Runtime → Runtime
apply_ops [] r = r
apply_ops (op ∷ ops) r = apply_ops ops (apply_op op r)

-- The stage of a state in the life of the driver.
abbrev pub stage : RuntimeState → ℕ
stage uninitialized = 0
stage active = 1
stage teardown = 2
stage quiescent = 3
stage unload_blocked = 4

op_step :
    (op : RuntimeOp) (r : Runtime)
    → (stage r.state ≤ stage (apply_op op r).state)
      × (r.state ≢ uninitialized
          → r.block_reason ≢ no_reason
          → (apply_op op r).block_reason ≡ r.block_reason)
unfolding runtime_init activate begin_teardown record_block enter_quiescent enter_unload_blocked
    report_underflow
op_step op_init r = ground arith
op_step op_activate r = ground arith
op_step op_begin_teardown r = ground arith
op_step op_enter_quiescent r = ground arith
op_step op_report_underflow r = ground arith
op_step (op_record_block why) r = ground arith
op_step (op_enter_unload_blocked why) r = ground arith

stage_blocked : (s : RuntimeState) → 4 ≤ stage s → s ≡ unload_blocked
stage_blocked s h = ground arith

stage_started : (s : RuntimeState) → 0 < stage s → s ≢ uninitialized
stage_started s h = ground arith

started_stage : (s : RuntimeState) → s ≢ uninitialized → 0 < stage s
started_stage s h = ground arith

-- No sequence of operations takes the driver back to an earlier stage, so a driver that is blocked
-- stays blocked; and from its activation on the first block reason that is recorded stays the reason.
pub stages_only_rise :
    (ops : List RuntimeOp) (r : Runtime)
    → (stage r.state ≤ stage (apply_ops ops r).state)
      × (r.state ≡ unload_blocked → (apply_ops ops r).state ≡ unload_blocked)
      × (r.state ≢ uninitialized
          → r.block_reason ≢ no_reason
          → (apply_ops ops r).block_reason ≡ r.block_reason)
stages_only_rise [] r = (omega arith, λ h. h, λ h k. refl)
stages_only_rise (op ∷ ops) r =
    let (up, keep) = op_step op r in
    let (up', blocked', keep') = stages_only_rise ops (apply_op op r) in
    (
      omega arith,
      λ h. blocked' (stage_blocked (apply_op op r).state (ground arith)),
      λ started given.
          let same = keep started given in
          let first : stage r.state ≤ stage (apply_op op r).state = up in
          keep' (stage_started (apply_op op r).state (omega (arith, started_stage r.state started)))
            (λ e. given (sym same ∙ e))
          ∙ same,
    )

-- `ShRuntimeRecordBlock` of each reason in turn.
abbrev pub record_all : List BlockReason → Runtime → Runtime
record_all [] r = r
record_all (why ∷ whys) r = record_all whys (record_block why r)

history_at-record_block :
    (why : BlockReason) (r : Runtime) (i : ℕ)
    → length r.history ≡ block_history_cap
    → i < block_history_cap
    → history_at i (record_block why r) ≡ (if i == r.history_count then why else history_at i r)
unfolding history_at record_block
history_at-record_block why r i size h = ground (
  arith,
  get_or-set_self r.history i why no_reason (omega arith),
  get_or-set_ne r.history r.history_count i why no_reason,
)

length-record_block :
    (why : BlockReason) (r : Runtime) → length (record_block why r).history ≡ length r.history
unfolding record_block
length-record_block why r = ground (arith, length-set r.history r.history_count why)

count-record_block :
    (why : BlockReason) (r : Runtime) → (record_block why r).history_count ≡ r.history_count + 1
unfolding record_block
count-record_block why r = refl

history_at_past : (r : Runtime) (i : ℕ) → r.history_count ≤ i → history_at i r ≡ no_reason
unfolding history_at
history_at_past r i h = ground arith

get_or-cons_ne :
    (why : BlockReason) (whys : List BlockReason) (k : ℕ)
    → k ≢ 0
    → get_or (why ∷ whys) k no_reason ≡ get_or whys (k - 1) no_reason
get_or-cons_ne why whys zero h = absurd (h refl)
get_or-cons_ne why whys (suc k) h = let e : suc k - 1 ≡ k = omega arith in rw e

get_or-cons_eq :
    (why : BlockReason) (whys : List BlockReason) (k : ℕ)
    → k ≡ 0
    → get_or (why ∷ whys) k no_reason ≡ why
get_or-cons_eq why whys zero h = refl
get_or-cons_eq why whys (suc k) h = absurd (omega arith)

record_all-history :
    (whys : List BlockReason) (r : Runtime) (i : ℕ)
    → length r.history ≡ block_history_cap
    → i < block_history_cap
    → history_at i (record_all whys r) ≡ (
        if ltb i r.history_count
        then history_at i r
        else get_or whys (i - r.history_count) no_reason)
record_all-history [] r i size h = ground (arith, history_at_past r i)
record_all-history (why ∷ whys) r i size h =
    record_all-history whys (record_block why r) i (length-record_block why r ∙ size) h ∙ step
  where
    step :
        (if ltb i (record_block why r).history_count
          then history_at i (record_block why r)
          else get_or whys (i - (record_block why r).history_count) no_reason)
        ≡ (if ltb i r.history_count
            then history_at i r
            else get_or (why ∷ whys) (i - r.history_count) no_reason)
    step = ground (
      arith,
      history_at-record_block why r i size h,
      count-record_block why r,
      get_or-cons_ne why whys (i - r.history_count),
      get_or-cons_eq why whys (i - r.history_count),
    )

record_all-count :
    (whys : List BlockReason) (r : Runtime)
    → (record_all whys r).history_count ≡ r.history_count + length whys
record_all-count [] r = omega arith
record_all-count (why ∷ whys) r =
    omega (arith, record_all-count whys (record_block why r), count-record_block why r)

record_block-first :
    (why : BlockReason) (r : Runtime)
    → r.block_reason ≡ no_reason
    → (record_block why r).block_reason ≡ why
unfolding record_block
record_block-first why r h = ground arith

record_block-kept :
    (why : BlockReason) (r : Runtime)
    → r.block_reason ≢ no_reason
    → (record_block why r).block_reason ≡ r.block_reason
unfolding record_block
record_block-kept why r h = ground arith

record_all-reason :
    (whys : List BlockReason) (r : Runtime)
    → r.block_reason ≢ no_reason
    → (record_all whys r).block_reason ≡ r.block_reason
record_all-reason [] r h = refl
record_all-reason (why ∷ whys) r h =
    let kept = record_block-kept why r h in
    record_all-reason whys (record_block why r) (λ e. h (sym kept ∙ e)) ∙ kept

history_at_high : (r : Runtime) (i : ℕ) → block_history_cap ≤ i → history_at i r ≡ no_reason
unfolding history_at
history_at_high r i h = ground arith

-- After the reasons of a list are recorded one by one in a driver with no recorded reason, the count
-- is their number, the reason is the first of them, entry `i` of the history is reason `i` for the
-- first 16, and every other entry is `ShinkenBlockNone`.
pub record_all_lem :
    (why : BlockReason) (whys : List BlockReason) (r : Runtime) (i : ℕ)
    → length r.history ≡ block_history_cap
    → r.history_count ≡ 0
    → r.block_reason ≡ no_reason
    → why ≢ no_reason
    → ((record_all (why ∷ whys) r).history_count ≡ length (why ∷ whys))
      × ((record_all (why ∷ whys) r).block_reason ≡ why)
      × (history_at i (record_all (why ∷ whys) r)
          ≡ (if ltb i block_history_cap then get_or (why ∷ whys) i no_reason else no_reason))
record_all_lem why whys r i size empty clear some_why = (
  omega (arith, record_all-count (why ∷ whys) r),
  record_all-reason whys (record_block why r) (λ e. some_why (sym first ∙ e)) ∙ first,
  entry,
)
  where
    first : (record_block why r).block_reason ≡ why
    first = record_block-first why r clear

    entry :
        history_at i (record_all (why ∷ whys) r)
        ≡ (if ltb i block_history_cap then get_or (why ∷ whys) i no_reason else no_reason)
    entry = elim (dec_lt i block_history_cap) [
      | yes low ↦
          let at : i - r.history_count ≡ i = omega arith in
          let full = record_all-history (why ∷ whys) r i size low in full ∙ ground arith
      | no high ↦ ground (arith, history_at_high (record_all (why ∷ whys) r) i (omega arith))
    ]

module _ (sensor_quiesce divert_quiesce : Runtime → Bool × Runtime)
    (sensor_cleanup divert_cleanup : Runtime → Runtime) (r : Runtime) where
  abbrev started : Runtime
  started = (begin_teardown r).1

  abbrev sensed : Runtime
  sensed = (sensor_quiesce started).1

  abbrev diverted : Runtime
  diverted = (divert_quiesce sensed).1

  abbrev cleaned : Runtime
  cleaned = divert_cleanup (sensor_cleanup (enter_quiescent diverted))

  -- Whatever the quiesce and cleanup routines do: an unload returns TRUE exactly when both quiesce
  -- routines succeed, the driver is not blocked after them, and it is not blocked after the cleanup;
  -- it is then in the state that the cleanup left, and an unload that returns FALSE leaves the driver
  -- in UNLOAD_BLOCKED.
  pub run_unload_lem :
      let result = run_unload sensor_quiesce divert_quiesce sensor_cleanup divert_cleanup r in
      ((result.0 ≡ true) ↔ (
        ((sensor_quiesce started).0 ≡ true)
        × ((divert_quiesce sensed).0 ≡ true)
        × (diverted.state ≢ unload_blocked)
        × (cleaned.state ≢ unload_blocked)))
      × (result.0 ≡ true → result.1 ≡ cleaned)
      × (result.0 ≡ false → result.1.state ≡ unload_blocked)
  unfolding run_unload enter_unload_blocked
  run_unload_lem = ground arith
