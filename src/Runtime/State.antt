-- ===== src/Runtime/State.antt =====
-- runtime/runtime.c: the terminal state machine, and the block reasons with their history.
pub mod Laws
use shinken_sentinel.Prelude.{
  ℕ, ◌+◌, ◌%◌, ◌^◌, ◌||◌, List, Option, some, none, Bool, true, false, if◌then◌else◌, ltb, leb,
  get_or, set, replicate,
}

-- `SHINKEN_RUNTIME_STATE`
pub data RuntimeState : Type 0 where
  uninitialized active teardown quiescent unload_blocked : RuntimeState

-- `SHINKEN_BLOCK_REASON`
pub data BlockReason : Type 0 where
  no_reason sensor_callout_busy divert_callout_busy flow_context_drain injection_drain
        work_item_drain event_thread_drain handle_contexts_open bfe_callback_active bfe_unsubscribe
        engine_close rundown_stuck rundown_underflow worker_thread_drain :
      BlockReason

abbrev pub block_history_cap : ℕ
block_history_cap = 16

-- `g_State`, `g_BlockReason`, `g_BlockHistory` and `g_BlockHistoryCount`.
pub record Runtime : Type 0 where
  pub state : RuntimeState
  pub block_reason : BlockReason
  pub history : List BlockReason
  pub history_count : ℕ

abbrev pub image : Runtime
image = record {
  state = uninitialized;
  block_reason = no_reason;
  history = replicate block_history_cap no_reason;
  history_count = 0;
}

abbrev pub is_none : BlockReason → Bool
is_none no_reason = true
is_none _ = false

abbrev pub is_active : RuntimeState → Bool
is_active active = true
is_active _ = false

abbrev pub is_blocked : RuntimeState → Bool
is_blocked unload_blocked = true
is_blocked _ = false

abbrev pub is_teardown : RuntimeState → Bool
is_teardown teardown = true
is_teardown _ = false

-- `ShRuntimeInit`, for the reasons; the rundowns that it also clears are not part of this record.
init_from : RuntimeState → Runtime → Runtime
init_from uninitialized r = record r { block_reason = no_reason; history_count = 0 }
init_from _ r = r

unfoldable pub runtime_init : Runtime → Runtime
unfolding init_from
runtime_init r = init_from r.state r

-- `ShRuntimeActivate`
activate_from : RuntimeState → Runtime → Runtime
activate_from uninitialized r = record r { state = active }
activate_from _ r = r

unfoldable pub activate : Runtime → Runtime
unfolding activate_from runtime_init
activate r = activate_from (runtime_init r).state (runtime_init r)

-- `ShRuntimeDestroyAllowed`
unfoldable pub destroy_allowed : Runtime → Bool
destroy_allowed r = elim r.state [ uninitialized ↦ true | quiescent ↦ true | _ ↦ false ]

-- `ShRuntimeBeginTeardown`, with what it returns.
teardown_from : RuntimeState → Runtime → Bool × Runtime
teardown_from uninitialized r = (true, r)
teardown_from active r = (true, record r { state = teardown })
teardown_from teardown r = (true, r)
teardown_from _ r = (false, r)

unfoldable pub begin_teardown : Runtime → Bool × Runtime
unfolding teardown_from
begin_teardown r = teardown_from r.state r

-- `ShRuntimeRecordBlock`. A write at an index past the capacity is skipped, as by the code's test. The
-- count of the records is not bounded here, where the code's LONG wraps after 2 ^ 31 of them.
unfoldable pub record_block : BlockReason → Runtime → Runtime
record_block why r = record r {
  block_reason = if is_none r.block_reason then why else r.block_reason;
  history =
      if ltb r.history_count block_history_cap
      then set r.history r.history_count why
      else r.history;
  history_count = r.history_count + 1;
}

-- `ShRuntimeBlockHistoryAt`
unfoldable pub history_at : ℕ → Runtime → BlockReason
history_at index r =
    if leb block_history_cap index || leb r.history_count index
    then no_reason
    else get_or r.history index no_reason

-- `ShRuntimeEnterQuiescent`
quiescent_from : RuntimeState → Runtime → Runtime
quiescent_from teardown r = record r { state = quiescent }
quiescent_from _ r = r

unfoldable pub enter_quiescent : Runtime → Runtime
unfolding quiescent_from
enter_quiescent r = quiescent_from r.state r

-- `ShRuntimeEnterUnloadBlocked`
unfoldable pub enter_unload_blocked : BlockReason → Runtime → Runtime
unfolding record_block
enter_unload_blocked why r = record (record_block why r) { state = unload_blocked }

-- `ShRuntimeReportUnderflow`, apart from the counter of the rundown itself.
unfoldable pub report_underflow : Runtime → Runtime
unfolding record_block enter_unload_blocked
report_underflow r =
    let r' = record_block rundown_underflow r in
    if is_teardown r'.state then enter_unload_blocked rundown_underflow r' else r'

-- `ShRuntimeRunUnload` up to the resident wait: a quiesce or cleanup that is NULL is the function
-- that changes nothing. The result is what the function returns where the wait is broken out of.
module _ (sensor_quiesce divert_quiesce : Runtime → Bool × Runtime)
    (sensor_cleanup divert_cleanup : Runtime → Runtime) where
  -- Policy b: record the first cause if there is none, and stay resident.
  stay_resident : Runtime → Bool × Runtime
  stay_resident r =
      let r' = if is_none r.block_reason then record_block rundown_stuck r else r in
      (false, enter_unload_blocked r'.block_reason r')

  run_cleanup : Runtime → Bool × Runtime
  run_cleanup r =
      let r' = divert_cleanup (sensor_cleanup (enter_quiescent r)) in
      if is_blocked r'.state then (false, r') else (true, r')

  unfoldable pub run_unload : Runtime → Bool × Runtime
  unfolding stay_resident run_cleanup
  run_unload r =
      let (_, r0) = begin_teardown r in
      let (sensor_ok, r1) = sensor_quiesce r0 in
      let (divert_ok, r2) = divert_quiesce r1 in
      if sensor_ok
      then if divert_ok
        then if is_blocked r2.state then stay_resident r2 else run_cleanup r2
        else stay_resident r2
      else stay_resident r2
