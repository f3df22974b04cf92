-- ===== src/Tests/Runtime.antt =====
-- The rundown counter and the state machine: the theorems on concrete values.
use shinken_sentinel.Prelude.{
  ℕ, ◌+◌, ◌≤◌, ◌≡◌, ◌≢◌, ◌↔◌, refl, List, [], ◌∷◌, none, Bool, true, false, arith, ltb, inl,
  if◌then◌else◌, ◌==◌,
}
use shinken_sentinel.Status.{NtStatus, status_success, status_device_busy}
use shinken_sentinel.Runtime.State.{
  Runtime, uninitialized, unload_blocked, no_reason, engine_close, begin_teardown, enter_quiescent,
  run_unload,
}
use shinken_sentinel.Runtime.State.Laws.{
  RuntimeOp, op_activate, op_begin_teardown, op_enter_unload_blocked, stage, record_all,
  stages_only_rise, record_all_lem, run_unload_lem,
}
use shinken_sentinel.Runtime.State.Laws
use shinken_sentinel.Runtime.Rundown.{Rundown, stop_bit}
use shinken_sentinel.Runtime.Rundown.Laws.{View, Behaviour, rundown-Behaviour}
use shinken_sentinel.Runtime.Objects.{
  WfpObject, registered, callout_gone, destroyed, unregister_by_id, unregister_by_key,
  injection_destroy, delete_callout_by_id,
}
use shinken_sentinel.Runtime.Objects.Laws.{RetryEnd, tracked_retries}
use shinken_sentinel.Runtime.Objects.Honest.{HonestStep, op_callout_by_id, every_step_honest}
use shinken_sentinel.Tests.Data.{running}

abbrev three_held : Rundown
three_held = record { count = 3; underflows = 0 }

three_held-View : View three_held false 3
three_held-View = record { pattern = refl; few = omega arith }

rundown-Behaviour_example : Behaviour three_held false 3 running
rundown-Behaviour_example = rundown-Behaviour three_held false 3 running three_held-View

abbrev two_stopped : Rundown
two_stopped = record { count = 2 + stop_bit; underflows = 0 }

two_stopped-View : View two_stopped true 2
two_stopped-View = record { pattern = refl; few = omega arith }

abbrev falling : ℕ → ℕ
falling i = if i == 2 then stop_bit else 1 + stop_bit

abbrev some_ops : List RuntimeOp
some_ops = op_begin_teardown ∷ op_enter_unload_blocked engine_close ∷ op_activate ∷ []

stages_only_rise_example :
    (stage running.state ≤ stage (Laws.apply_ops some_ops running).state)
    × (running.state ≡ unload_blocked → (Laws.apply_ops some_ops running).state ≡ unload_blocked)
    × (running.state ≢ uninitialized
        → running.block_reason ≢ no_reason
        → (Laws.apply_ops some_ops running).block_reason ≡ running.block_reason)
stages_only_rise_example = stages_only_rise some_ops running

abbrev quiet : Runtime → Bool × Runtime
quiet r = (true, r)

abbrev same : Runtime → Runtime
same r = r

run_unload_lem_example :
    (((run_unload quiet quiet same same running).0 ≡ true) ↔ (
      (true ≡ true)
      × (true ≡ true)
      × ((begin_teardown running).1.state ≢ unload_blocked)
      × ((enter_quiescent (begin_teardown running).1).state ≢ unload_blocked)))
    × ((run_unload quiet quiet same same running).0 ≡ true
        → (run_unload quiet quiet same same running).1 ≡ enter_quiescent (begin_teardown running).1)
    × ((run_unload quiet quiet same same running).0 ≡ false
        → (run_unload quiet quiet same same running).1.state ≡ unload_blocked)
run_unload_lem_example = run_unload_lem quiet quiet same same running

abbrev callout : WfpObject
callout = record {
  id = 12;
  filter_id = 0;
  key = none;
  state = registered;
  busy_retries = 0;
  last_status = 0;
}

-- Busy twice, then done.
abbrev engine_answers : ℕ → NtStatus
engine_answers i = if ltb i 2 then status_device_busy else status_success

tracked_retries_example :
    RetryEnd callout_gone engine_answers 0 5 (unregister_by_id engine_answers 5 callout)
    × RetryEnd callout_gone engine_answers 0 5 (unregister_by_key engine_answers 5 callout)
    × RetryEnd destroyed engine_answers 0 5 (injection_destroy true engine_answers 5 callout)
tracked_retries_example = tracked_retries engine_answers 5 callout (inl refl)

every_step_honest_example :
    HonestStep
      (op_callout_by_id status_device_busy)
      callout
      (delete_callout_by_id status_device_busy callout)
every_step_honest_example = every_step_honest (op_callout_by_id status_device_busy) callout
